-- ===== src/WalUtils/Steps.antt =====
-- The loops of archive_build_segment_list on segment boundaries: the next segment, and the segments of
-- one entry.
use pg_plugins.Base.{
  ℕ, zero, suc, ◌+◌, ◌*◌, ◌/◌, ◌%◌, ◌^◌, ◌≤◌, ◌<◌, ◌≡◌, sym, ap, ◌∙◌, some, List, [], ◌∷◌, map,
  arith, Bytes,
}
use native.Mathlib.Decide.{dec_lt}
use native.Mathlib.Nat.{mod-add-div', add-div_right, mul-div_left, mul-le-mul_right, suc-mul}
use pg_plugins.WalUtils.History.{Entry}
use pg_plugins.WalUtils.Segments.{Wal, next_segment, cons_segment, entry_segments}

abbrev pub range : ℕ → ℕ → List ℕ
range k zero = []
range k (suc n) = k ∷ range (suc k) n

module _ (wal : Wal) where
  abbrev pub size : ℕ
  size = wal.wal_segment_size

  -- The start of segment number `k`.
  abbrev pub start : ℕ → ℕ
  start k = k * size

  pub start-suc : (k : ℕ) → start (suc k) ≡ start k + size
  start-suc k = suc-mul k size

  pub start-le : {j k : ℕ} → j ≤ k → start j ≤ start k
  start-le h = mul-le-mul_right size h

  -- The next segment of a position, without wrap-around.
  pub next_segment_lem :
      (lsn : ℕ) → 1 ≤ size → lsn + size < 2 ^ 64 → next_segment wal lsn ≡ start (suc (lsn / size))
  unfolding next_segment
  next_segment_lem lsn h fits =
      let fit : (lsn + size) % 2 ^ 64 ≡ lsn + size = omega arith in
      rw fit
        (omega (arith, mod-add-div' (lsn + size) size, ap (λ q. q * size) (add-div_right lsn h)))

  next_segment-start :
      (k : ℕ) → 1 ≤ size → start k + size < 2 ^ 64 → next_segment wal (start k) ≡ start (suc k)
  next_segment-start k h fits =
      next_segment_lem (start k) h fits ∙ ap (λ q. start (suc q)) (mul-div_left k h)

  -- The name of the segment in front of segment `k`, on a timeline.
  abbrev pub segment_name : ℕ → ℕ → Bytes
  segment_name tli k = wal.file_name tli (wal.prev_seg (start k))

  entry_segments-step :
      (fuel lsn : ℕ) (e : Entry)
      → e.begin ≤ lsn
      → lsn < e.end
      → entry_segments wal (suc fuel) e lsn
        ≡ cons_segment
            (wal.file_name e.tli (wal.prev_seg lsn))
            (entry_segments wal fuel e (next_segment wal lsn))
  unfolding entry_segments
  entry_segments-step fuel lsn e b more = ground arith

  entry_segments-done :
      (fuel lsn : ℕ) (e : Entry)
      → e.end ≤ lsn
      → entry_segments wal (suc fuel) e lsn ≡ some ([], lsn)
  unfolding entry_segments
  entry_segments-done fuel lsn e done = ground arith

  -- One entry gives the segments up to its end.
  pub entry_segments_lem :
      (fuel k : ℕ) (e : Entry)
      → 1 ≤ size
      → e.begin ≤ start k
      → e.end + size < 2 ^ 64
      → e.end ≤ start (fuel + k)
      → (n : ℕ) × (entry_segments wal (suc fuel) e (start k)
          ≡ some (map (segment_name e.tli) (range k n), start (k + n)))
        × (e.end ≤ start (k + n))
        × ((j : ℕ) → j < k + n → k ≤ j → start j < e.end)
  entry_segments_lem zero k e h b fits enough =
      let here : start (0 + k) ≡ start k = ap start (omega arith) in
      let same : start (k + 0) ≡ start k = ap start (omega arith) in
      (
        0,
        entry_segments-done 0 (start k) e (omega (arith, here)) ∙ ap (λ p. some ([], p)) (sym same),
        omega (arith, here, same),
        λ j lt le. absurd (omega arith),
      )
  entry_segments_lem (suc fuel) k e h b fits enough = elim (dec_lt (start k) e.end) [
    | no done ↦
        let same : start (k + 0) ≡ start k = ap start (omega arith) in
        (
          0,
          entry_segments-done (suc fuel) (start k) e (omega arith)
              ∙ ap (λ p. some ([], p)) (sym same),
          omega (arith, same),
          λ j lt le. absurd (omega arith),
        )
    | yes more ↦
        let same : suc fuel + k ≡ fuel + suc k = omega arith in
        let (n, run, ends, inside) =
          entry_segments_lem fuel (suc k) e h (omega (arith, start-suc k)) fits
            (omega (arith, ap start same)) in
        let next = next_segment-start k h (omega arith) in
        let behind : k + suc n ≡ suc k + n = omega arith in
        (
          suc n,
          entry_segments-step (suc fuel) (start k) e b more
              ∙ ap (λ p. cons_segment (segment_name e.tli k) (entry_segments wal (suc fuel) e p))
                  next
              ∙ ap (cons_segment (segment_name e.tli k)) run
              ∙ ap (λ p. some (map (segment_name e.tli) (range k (suc n)), start p)) (sym behind),
          omega (arith, ap start behind),
          λ j lt le. elim (dec_lt k j) [
            | yes later ↦ inside j (omega arith) later
            | no first ↦ let only : j ≡ k = omega arith in omega (arith, ap start only)
          ],
        )
  ]
