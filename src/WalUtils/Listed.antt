-- ===== src/WalUtils/Listed.antt =====
-- wal_utils/wal_utils.c: the rows that archive_build_segment_list returns.
use pg_plugins.Base.{
  ℕ, zero, suc, ◌+◌, ◌-◌, ◌*◌, ◌/◌, ◌%◌, ◌^◌, ◌≤◌, ◌<◌, ◌≡◌, refl, ap, ◌∙◌, max, Option, none, some,
  List, [], ◌∷◌, ◌++◌, map, arith, Bytes, Bool-cases, Option-cases, inl, inr, All, ◌==◌,
}
use native.Mathlib.Nat.{suc-mul, div-eq_of_lt-le}
use pg_plugins.Base.Int.{ℤ, uint32}
use pg_plugins.Base.Result.{Result, ok, err}
use pg_plugins.WalUtils.History.{Entry, Scanner, HistoryError, parse_time_line_history}
use pg_plugins.WalUtils.Parsed.{Chained, history_entries}
use pg_plugins.WalUtils.Segments.{
  Wal, SegmentError, next_segment, all_segments, find_parent, check_history, tracked,
  build_segments, archive_build_segment_list,
}
use pg_plugins.WalUtils.Steps.{range, size, start}
use pg_plugins.WalUtils.Cover.{timeline_at, Joined, names_from, last_end, all_segments_cover}

Chained-Joined : (t p m : ℕ) (es : List Entry) → Chained t p es → p ≤ m → Joined m es
Chained-Joined t p m [] c h = tt
Chained-Joined t p m (e ∷ es) (_, b, c) h =
    (omega arith, Chained-Joined e.tli e.end (max m e.end) es c (omega arith))

Joined-snoc :
    (m : ℕ) (es : List Entry) (e : Entry)
    → Joined m es
    → e.begin ≤ max m (last_end es)
    → Joined m (es ++ e ∷ [])
Joined-snoc m [] e j h = (omega arith, tt)
Joined-snoc m (x ∷ es) e (b, j) h = (b, Joined-snoc (max m x.end) es e j (omega arith))

parent-end :
    (tli lsn : ℕ) (es : List Entry) (p : Entry)
    → find_parent tli lsn es ≡ some p
    → p.end ≤ last_end es
unfolding find_parent
parent-end tli lsn [] p e = absurd (ground arith)
parent-end tli lsn (x ∷ es) p e = elim (Option-cases (find_parent tli lsn es)) [
  | inl nothing ↦ ground arith
  | inr (q, found) ↦ ground (arith, parent-end tli lsn es q found)
]

check_history-end :
    (ot ol target_tli tl start_ : ℕ) (es : List Entry)
    → check_history ot ol target_tli tl es ≡ ok start_
    → start_ ≤ last_end es
unfolding check_history
check_history-end ot ol target_tli tl start_ [] e = absurd (ground arith)
check_history-end ot ol target_tli tl start_ (x ∷ es) e =
    elim (Option-cases (find_parent ot ol (x ∷ es))) [
      | inl nothing ↦ absurd (ground arith)
      | inr (q, found) ↦ ground (arith, parent-end ot ol (x ∷ es) q found)
    ]

-- The entries that are followed are joined from the origin on.
tracked-Joined :
    (sc : Scanner) (ot ol target_tli tl : ℕ) (history : Option Bytes) (es : List Entry)
    → tracked sc ot ol target_tli tl history ≡ ok es
    → Joined ol es
unfolding tracked
tracked-Joined sc ot ol target_tli tl none es e = elim (Bool-cases (ot == target_tli)) [
  | inl same ↦
      let only : es ≡ record { tli = target_tli; begin = ol; end = tl } ∷ [] = ground arith in
      rw only (omega arith, tt)
  | inr differ ↦ absurd (ground arith)
]
tracked-Joined sc ot ol target_tli tl (some buf) es e = parsed (parse_time_line_history sc buf) refl
  where
    checked :
        (entries : List Entry)
        → parse_time_line_history sc buf ≡ ok entries
        → (r : Result SegmentError ℕ) → check_history ot ol target_tli tl entries ≡ r
        → Joined ol es
    checked entries same (err x) c = absurd (ground arith)
    checked entries same (ok begin) c =
        let all : es ≡ entries ++ record { tli = target_tli; begin = begin; end = tl } ∷ [] =
          ground arith in
        let ends = check_history-end ot ol target_tli tl begin entries c in
        let chain = history_entries sc buf entries same in
        rw all (
          Joined-snoc ol entries _ (Chained-Joined 0 0 ol entries chain.1 (omega arith))
            (omega arith))

    parsed :
        (r : Result HistoryError (List Entry)) → parse_time_line_history sc buf ≡ r → Joined ol es
    parsed (err x) same = absurd (ground arith)
    parsed (ok entries) same = checked entries same (check_history ot ol target_tli tl entries) refl

-- XLByteToPrevSeg: the number of the segment with the byte in front of a position, in unsigned
-- arithmetic of 64 bits.
abbrev pub IsPrevSeg : Wal → Type 0
IsPrevSeg wal = (lsn : ℕ) → wal.prev_seg lsn ≡ (lsn + 2 ^ 64 - 1) % 2 ^ 64 / wal.wal_segment_size

listed :
    (wal : Wal) (sc : Scanner) (fuel ot ol target_tli tl : ℕ) (history : Option Bytes)
    (es : List Entry) (segs : List Bytes)
    → ol ≤ tl
    → ot ≤ target_tli
    → tracked sc ot ol target_tli tl history ≡ ok es
    → all_segments wal fuel es (next_segment wal ol) ≡ some segs
    → build_segments wal sc fuel ot ol target_tli tl history
      ≡ ok (some (segs ++ wal.file_name target_tli (wal.prev_seg tl) ∷ []))
unfolding build_segments
listed wal sc fuel ot ol target_tli tl history es segs ordered older accepted run = ground arith

-- The name of segment number `i`, on the timeline of the position behind it.
abbrev pub numbered : Wal → List Entry → ℕ → Bytes
numbered wal es i = wal.file_name (timeline_at es (start wal (suc i))) i

module _ (wal : Wal) (prev : IsPrevSeg wal) (positive : 1 ≤ size wal) where
  prev_seg-start : (k : ℕ) → start wal (suc k) < 2 ^ 64 → wal.prev_seg (start wal (suc k)) ≡ k
  prev_seg-start k below =
      let one_more : k + 1 ≡ suc k = omega arith in
      let all = suc-mul k (size wal) in
      let before : (start wal (suc k) + 2 ^ 64 - 1) % 2 ^ 64 ≡ start wal (suc k) - 1 =
        omega (arith, all) in
      prev (start wal (suc k))
      ∙ ap (λ p. p / size wal) before
      ∙ div-eq_of_lt-le (size wal) (omega (arith, all))
          (omega (arith, all, ap (λ q. q * size wal) one_more))

  names_from-numbered :
      (es : List Entry) (q n : ℕ)
      → ((i : ℕ) → q ≤ i → i < q + n → start wal (suc i) < 2 ^ 64)
      → names_from wal es (suc q) n ≡ map (numbered wal es) (range q n)
  names_from-numbered es q zero below = refl
  names_from-numbered es q (suc n) below =
      ap
        (λ (i : ℕ).
          wal.file_name (timeline_at es (start wal (suc q))) i ∷ names_from wal es (suc (suc q)) n)
        (prev_seg-start q (below q (omega arith) (omega arith)))
      ∙ ap (λ (s : List Bytes). numbered wal es q ∷ s)
          (names_from-numbered es (suc q) n (λ i le lt. below i (omega arith) (omega arith)))

  last_end-below :
      (fuel : ℕ) (es : List Entry)
      → All (λ e. (e.end + size wal < 2 ^ 64) × (e.end ≤ start wal fuel)) es
      → last_end es < 2 ^ 64
  last_end-below fuel [] small = omega arith
  last_end-below fuel (e ∷ es) ((fits, _), small) = omega (arith, last_end-below fuel es small)

  -- The list has the segments from that of the origin on, each once and in order on the timeline of
  -- the history, up to the last end of an entry, and then the segment of the byte in front of the target,
  -- the highest of all at the target 0/0: where XLByteToPrevSeg is as documented, the segment size is not 0, the arguments
  -- are in order, the history is accepted, no position wraps around, and the fuel is above the
  -- number of segments up to each end of an entry.
  pub segment_list :
      (sc : Scanner) (fuel origin_lsn target_lsn : ℕ) (origin_tli target_tli : ℤ)
      (history : Option Bytes) (es : List Entry)
      → origin_lsn ≤ target_lsn
      → uint32 origin_tli ≤ uint32 target_tli
      → origin_lsn + size wal < 2 ^ 64
      → tracked sc (uint32 origin_tli) origin_lsn (uint32 target_tli) target_lsn history ≡ ok es
      → All (λ e. (e.end + size wal < 2 ^ 64) × (e.end ≤ start wal fuel)) es
      → (n : ℕ) × (archive_build_segment_list wal sc
            (suc fuel)
            (some origin_tli)
            (some origin_lsn)
            (some target_tli)
            (some target_lsn)
            history
          ≡ ok (
              some (
                map (numbered wal es) (range (origin_lsn / size wal) n)
                ++ wal.file_name (uint32 target_tli) ((target_lsn + 2 ^ 64 - 1) % 2 ^ 64 / size wal)
                  ∷ [])))
        × (last_end es ≤ start wal (suc (origin_lsn / size wal + n)))
        × ((i : ℕ)
            → origin_lsn / size wal ≤ i
            → i < origin_lsn / size wal + n
            → start wal (suc i) < last_end es)
  unfolding archive_build_segment_list
  segment_list sc fuel ol tl ot target_tli history es ordered older fits accepted small =
      let q : ℕ = ol / size wal in
      let (n, run, ends, inside) =
        all_segments_cover wal fuel ol es positive fits
          (tracked-Joined sc (uint32 ot) ol (uint32 target_tli) tl history es accepted) small in
      (
        n,
        listed wal sc (suc fuel) (uint32 ot) ol (uint32 target_tli) tl history es _ ordered older
              accepted run
            ∙ ap
                (λ (s : List Bytes).
                  ok (some (s ++ wal.file_name (uint32 target_tli) (wal.prev_seg tl) ∷ [])))
                (names_from-numbered es q n (λ i le lt. omega (
                  arith,
                  inside (suc i) (omega arith) (omega arith),
                  last_end-below fuel es small,
                )))
            ∙ ap
                (λ (i : ℕ). ok (
                  some (
                    map (numbered wal es) (range q n) ++ wal.file_name (uint32 target_tli) i ∷ [])))
                (prev tl),
        let moved : suc q + n ≡ suc (q + n) = omega arith in
            omega (arith, ends, ap (start wal) moved),
        λ i le lt. inside (suc i) (omega arith) (omega arith),
      )
