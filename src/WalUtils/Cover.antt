-- ===== src/WalUtils/Cover.antt =====
-- wal_utils/wal_utils.c: the loop of archive_build_segment_list over the entries of a history.
use pg_plugins.Base.{
  ℕ, zero, suc, ◌+◌, ◌/◌, ◌^◌, ◌≤◌, ◌<◌, ◌≡◌, refl, sym, ap, ◌∙◌, max, some, List, [], ◌∷◌, ◌++◌,
  map, arith, Bytes, ltb, if◌then◌else◌, All,
}
use native.Mathlib.Decide.{dec_lt}
use native.Mathlib.Nat.{mod-lt, mod-add-div'}
use pg_plugins.WalUtils.History.{Entry}
use pg_plugins.WalUtils.Segments.{Wal, next_segment, entry_segments, all_segments}
use pg_plugins.WalUtils.Steps.{
  range, size, start, start-suc, start-le, next_segment_lem, segment_name, entry_segments_lem,
}

-- The first entry that ends behind a position has its timeline.
abbrev pub timeline_at : List Entry → ℕ → ℕ
timeline_at [] lsn = 0
timeline_at (e ∷ es) lsn = if ltb lsn e.end then e.tli else timeline_at es lsn

-- From a position on, each entry begins before the position or before the end of an earlier one.
abbrev pub Joined : ℕ → List Entry → Type 0
Joined lsn [] = Unit
Joined lsn (e ∷ es) = (e.begin ≤ lsn) × Joined (max lsn e.end) es

-- The largest end of an entry.
abbrev pub last_end : List Entry → ℕ
last_end [] = 0
last_end (e ∷ es) = max e.end (last_end es)

module _ (wal : Wal) where
  map-range_cong :
      (f g : ℕ → Bytes) (k n : ℕ)
      → ((j : ℕ) → k ≤ j → j < k + n → f j ≡ g j)
      → map f (range k n) ≡ map g (range k n)
  map-range_cong f g k zero same = refl
  map-range_cong f g k (suc n) same = rw (
    same k (omega arith) (omega arith),
    map-range_cong f g (suc k) n (λ j le lt. same j (omega arith) (omega arith)),
  )

  range-append :
      (f : ℕ → Bytes) (k n m : ℕ)
      → map f (range k n) ++ map f (range (k + n) m) ≡ map f (range k (n + m))
  range-append f k zero m =
      let same : k + 0 ≡ k = omega arith in let all : 0 + m ≡ m = omega arith in rw (same, all)
  range-append f k (suc n) m =
      let same : k + suc n ≡ suc k + n = omega arith in
      let all : suc n + m ≡ suc (n + m) = omega arith in
      rw (same, all) (ap (λ (s : List Bytes). f k ∷ s) (range-append f (suc k) n m))

  Joined-later : (es : List Entry) {m m' : ℕ} → m ≤ m' → Joined m es → Joined m' es
  Joined-later [] le h = tt
  Joined-later (e ∷ es) le (b, h) = (omega arith, Joined-later es (omega arith) h)

  abbrev pub name_at : List Entry → ℕ → Bytes
  name_at es j = segment_name wal (timeline_at es (start wal j)) j

  abbrev pub names_from : List Entry → ℕ → ℕ → List Bytes
  names_from es k n = map (name_at es) (range k n)

  timeline-first :
      (e : Entry) (es : List Entry) (lsn : ℕ) → lsn < e.end → timeline_at (e ∷ es) lsn ≡ e.tli
  timeline-first e es lsn h = ground arith

  timeline-rest :
      (e : Entry) (es : List Entry) (lsn : ℕ)
      → e.end ≤ lsn
      → timeline_at (e ∷ es) lsn ≡ timeline_at es lsn
  timeline-rest e es lsn h = ground arith

  abbrev Covers : ℕ → List Entry → ℕ → Type 0
  Covers fuel es k =
      (n : ℕ) × (all_segments wal (suc fuel) es (start wal k) ≡ some (names_from es k n))
      × (last_end es ≤ start wal (k + n))
      × ((j : ℕ) → j < k + n → k ≤ j → start wal j < last_end es)

  -- The names of one entry in front of those of the others.
  names-append :
      (e : Entry) (es : List Entry) (k n m : ℕ)
      → ((j : ℕ) → j < k + n → k ≤ j → start wal j < e.end)
      → e.end ≤ start wal (k + n)
      → map (segment_name wal e.tli) (range k n) ++ names_from es (k + n) m
        ≡ names_from (e ∷ es) k (n + m)
  names-append e es k n m inside ends =
      ap (λ (s : List Bytes). s ++ names_from es (k + n) m)
        (map-range_cong (segment_name wal e.tli) (name_at (e ∷ es)) k n (λ j le lt.
          ap (λ t. segment_name wal t j) (sym (timeline-first e es _ (inside j lt le)))))
      ∙ ap (λ (s : List Bytes). map (name_at (e ∷ es)) (range k n) ++ s)
          (map-range_cong (name_at es) (name_at (e ∷ es)) (k + n) m (λ j le lt.
            ap (λ t. segment_name wal t j)
              (sym (timeline-rest e es _ (omega (arith, start-le wal {j = k + n} {k = j} le))))))
      ∙ range-append (name_at (e ∷ es)) k n m

  all_segments-cons :
      (fuel lsn lsn' : ℕ) (e : Entry) (es : List Entry) (segs more : List Bytes)
      → entry_segments wal fuel e lsn ≡ some (segs, lsn')
      → all_segments wal fuel es lsn' ≡ some more
      → all_segments wal fuel (e ∷ es) lsn ≡ some (segs ++ more)
  unfolding all_segments
  all_segments-cons fuel lsn lsn' e es segs more first rest = ground arith

  all_segments-nil : (fuel lsn : ℕ) → all_segments wal fuel [] lsn ≡ some []
  unfolding all_segments
  all_segments-nil fuel lsn = refl

  all_segments_lem :
      (fuel k : ℕ) (es : List Entry)
      → 1 ≤ size wal
      → Joined (start wal k) es
      → All (λ e. (e.end + size wal < 2 ^ 64) × (e.end ≤ start wal fuel)) es
      → Covers fuel es k
  all_segments_lem fuel k [] h joined small =
      (0, all_segments-nil (suc fuel) (start wal k), omega arith, λ j lt le. absurd (omega arith))
  all_segments_lem fuel k (e ∷ es) h (b, joined) ((fits, enough), small) =
      let (n, run, ends, inside) =
        entry_segments_lem wal fuel k e h b fits
          (omega (arith, start-le wal {j = fuel} {k = fuel + k} (omega arith))) in
      let later = start-le wal {j = k} {k = k + n} (omega arith) in
      let (m, run', ends', inside') =
        all_segments_lem fuel (k + n) es h (Joined-later es (omega arith) joined) small in
      let all : k + (n + m) ≡ k + n + m = omega arith in
      (
        n + m,
        all_segments-cons (suc fuel) (start wal k) (start wal (k + n)) e es _ _ run run'
            ∙ ap some (names-append e es k n m inside ends),
        omega (arith, ap (start wal) all, start-le wal {j = k + n} {k = k + n + m} (omega arith)),
        λ j lt le. elim (dec_lt j (k + n)) [
          | yes before ↦ omega (arith, inside j before le)
          | no behind ↦ omega (arith, inside' j (omega arith) (omega arith))
        ],
      )

  -- The origin's segment and the following up to the last end, in order and each once, on the
  -- timelines of the history: where the entries are joined from the start of the segment behind
  -- the origin, no position wraps around, and the fuel is the number of segments up to the last end
  -- of an entry.
  pub all_segments_cover :
      (fuel origin_lsn : ℕ) (es : List Entry)
      → 1 ≤ size wal
      → origin_lsn + size wal < 2 ^ 64
      → Joined origin_lsn es
      → All (λ e. (e.end + size wal < 2 ^ 64) × (e.end ≤ start wal fuel)) es
      → (n : ℕ) × (all_segments wal (suc fuel) es (next_segment wal origin_lsn)
          ≡ some (names_from es (suc (origin_lsn / size wal)) n))
        × (last_end es ≤ start wal (suc (origin_lsn / size wal) + n))
        × ((j : ℕ)
            → j < suc (origin_lsn / size wal) + n
            → suc (origin_lsn / size wal) ≤ j
            → start wal j < last_end es)
  all_segments_cover fuel origin_lsn es h fit joined small =
      let next = next_segment_lem wal origin_lsn h fit in
      let below : origin_lsn ≤ start wal (suc (origin_lsn / size wal)) = omega (
        arith,
        start-suc wal (origin_lsn / size wal),
        mod-add-div' origin_lsn (size wal),
        mod-lt origin_lsn h,
      ) in
      rw next (
        all_segments_lem fuel (suc (origin_lsn / size wal)) es h (Joined-later es below joined)
          small)
