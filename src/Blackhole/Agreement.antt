-- ===== src/Blackhole/Agreement.antt =====
-- blackhole/blackhole.c: the two functions return the same rows, unless the number is negative.
use pg_plugins.Base.{
  ℕ, zero, suc, ◌+◌, ◌-◌, ◌%◌, ◌^◌, ◌≤◌, ◌<◌, ◌≡◌, ◌↔◌, refl, ◌∙◌, ap, true, false, ltb, some, none,
  List, [], ◌∷◌, Bytes, arith, length,
}
use mathlib.Core.Path.{subst}
use pg_plugins.Base.Int.{ℤ, pos, negsuc, ltb_ℤ}
use pg_plugins.Base.Result.{ok}
use pg_plugins.Blackhole.Functions.{
  Row, int32, int64, uint64, data_text, put_rows, blackhole_tuplestore, per_call,
  blackhole_value_per_call, return_next, return_done, Returned, done, next,
}

module _ (print_int : ℤ → Bytes) where
  -- The rows from a number on, some of them.
  abbrev rows_from : (count left : ℕ) → List Row
  rows_from count zero = []
  rows_from count (suc left) =
      (pos count, data_text print_int (pos count)) ∷ rows_from (count + 1) left

  length-rows_from : (count left : ℕ) → length (rows_from count left) ≡ left
  length-rows_from count zero = refl
  length-rows_from count (suc left) = ap suc (length-rows_from (count + 1) left)

  put_rows_lem :
      (n count left : ℕ)
      → count + left ≡ n
      → put_rows print_int (suc left) (pos n) count ≡ some (rows_from count left)
  unfolding put_rows ltb_ℤ
  put_rows_lem n count zero e = ground arith
  put_rows_lem n count (suc left) e = ground (arith, put_rows_lem n (count + 1) left (omega arith))

  put_rows-all : (n : ℕ) → blackhole_tuplestore print_int (pos n) ≡ some (rows_from 0 n)
  unfolding blackhole_tuplestore
  put_rows-all n = put_rows_lem n 0 n (omega arith)

  int32-small : (n : ℕ) → n < 2 ^ 31 → int32 n ≡ pos n
  unfolding int32
  int32-small n h = ground arith

  int64-small : (n : ℕ) → n < 2 ^ 31 → int64 n ≡ pos n
  unfolding int64
  int64-small n h = ground arith

  uint64-small : (n : ℕ) → n < 2 ^ 31 → uint64 (pos n) ≡ n
  unfolding uint64
  uint64-small n h = omega arith

  per_call-next :
      (n count : ℕ)
      → n < 2 ^ 31
      → count < n
      → per_call print_int (pos n) count
        ≡ (return_next (pos count, data_text print_int (pos count)), some (count + 1))
  unfolding per_call
  per_call-next n count small before =
      let test : ltb count (uint64 (pos n)) ≡ true = ground (arith, uint64-small n) in
      let next_count : (count + 1) % 2 ^ 64 ≡ count + 1 = omega arith in
      rw (
        per_call,
        test,
        int32-small count (omega arith),
        int64-small count (omega arith),
        next_count,
      )

  per_call-done :
      (n count : ℕ)
      → n < 2 ^ 31
      → n ≤ count
      → per_call print_int (pos n) count ≡ (return_done, none)
  unfolding per_call
  per_call-done n count small behind =
      let test : ltb count (uint64 (pos n)) ≡ false = ground (arith, uint64-small n) in
      rw (per_call, test)

  Returned-rows :
      (n count left : ℕ)
      → n < 2 ^ 31
      → count + left ≡ n
      → Returned print_int (pos n) (some count) (rows_from count left)
  unfolding blackhole_value_per_call
  Returned-rows n count zero small e = done (ap ok (per_call-done n count small (omega arith)))
  Returned-rows n count (suc left) small e =
      next _ (ap ok (per_call-next n count small (omega arith)))
        (Returned-rows n (count + 1) left small (omega arith))

  -- No other rows are returned.
  Returned-unique :
      (n count left : ℕ) (rows : List Row)
      → n < 2 ^ 31
      → count + left ≡ n
      → Returned print_int (pos n) (some count) rows
      → rows ≡ rows_from count left
  unfolding blackhole_value_per_call
  Returned-unique n count zero rows small e (done e') = refl
  Returned-unique n count zero rows small e (next row e' later) =
      absurd (ground (arith, e', per_call-done n count small (omega arith)))
  Returned-unique n count (suc left) rows small e (done e') =
      absurd (ground (arith, e', per_call-next n count small (omega arith)))
  Returned-unique n count (suc left) rows small e
        (next {context' = context'} {rows = others} row e' later) =
      let step = per_call-next n count small (omega arith) in
      let first : row ≡ (pos count, data_text print_int (pos count)) = ground (arith, e', step) in
      let left_context : context' ≡ some (count + 1) = ground (arith, e', step) in
      let rest =
        Returned-unique n (count + 1) left others small (omega arith)
          (subst (λ c. Returned print_int (pos n) c others) left_context later) in
      cc (first, rest)

  -- The first call and a call with the counter 0 do the same, where a row is returned.
  Returned-first :
      (num : ℤ) (rows : List Row)
      → Returned print_int num none rows ↔ Returned print_int num (some 0) rows
  unfolding blackhole_value_per_call
  Returned-first num rows = (there num rows, back num rows)
    where
      there :
          (num : ℤ) (rows : List Row)
          → Returned print_int num none rows
          → Returned print_int num (some 0) rows
      there num rows (done e) = done e
      there num rows (next row e later) = next row e later

      back :
          (num : ℤ) (rows : List Row)
          → Returned print_int num (some 0) rows
          → Returned print_int num none rows
      back num rows (done e) = done e
      back num rows (next row e later) = next row e later

  -- The number of rows for a negative number: num is converted to 64 bits without a sign.
  abbrev pub wrapped : ℕ → ℕ
  wrapped m = 2 ^ 64 - 1 - m

  per_call-wrapped :
      (m count : ℕ)
      → count < wrapped m
      → per_call print_int (negsuc m) count
        ≡ (return_next (int32 count, data_text print_int (int64 count)), some (count + 1))
  unfolding per_call uint64
  per_call-wrapped m count before =
      let test : ltb count (uint64 (negsuc m)) ≡ true = ground arith in
      let next_count : (count + 1) % 2 ^ 64 ≡ count + 1 = omega arith in
      rw (per_call, test, next_count)

  per_call-wrapped_done :
      (m count : ℕ) → wrapped m ≤ count → per_call print_int (negsuc m) count ≡ (return_done, none)
  unfolding per_call uint64
  per_call-wrapped_done m count behind =
      let test : ltb count (uint64 (negsuc m)) ≡ false = ground arith in rw (per_call, test)

  -- The rows with the counters from a number on, the counter converted to an int4.
  abbrev wrapped_rows : (count left : ℕ) → List Row
  wrapped_rows count zero = []
  wrapped_rows count (suc left) =
      (int32 count, data_text print_int (int64 count)) ∷ wrapped_rows (count + 1) left

  length-wrapped_rows : (count left : ℕ) → length (wrapped_rows count left) ≡ left
  length-wrapped_rows count zero = refl
  length-wrapped_rows count (suc left) = ap suc (length-wrapped_rows (count + 1) left)

  Returned-wrapped :
      (m count left : ℕ)
      → count + left ≡ wrapped m
      → Returned print_int (negsuc m) (some count) (wrapped_rows count left)
  unfolding blackhole_value_per_call
  Returned-wrapped m count zero e = done (ap ok (per_call-wrapped_done m count (omega arith)))
  Returned-wrapped m count (suc left) e =
      next _ (ap ok (per_call-wrapped m count (omega arith)))
        (Returned-wrapped m (count + 1) left (omega arith))

  -- For a negative number, blackhole_tuplestore has no row, and the calls of blackhole_value_per_call
  -- return a set all the same.
  negative_rows :
      (m : ℕ)
      → (blackhole_tuplestore print_int (negsuc m) ≡ some [])
        × (more : List Row) × Returned print_int (negsuc m) none more
        × (length more ≡ wrapped m)
  unfolding blackhole_tuplestore put_rows ltb_ℤ
  negative_rows m = negative (wrapped m) refl
    where
      negative :
          (left : ℕ)
          → left ≡ wrapped m
          → (blackhole_tuplestore print_int (negsuc m) ≡ some [])
            × (more : List Row) × Returned print_int (negsuc m) none more
            × (length more ≡ wrapped m)
      negative left e = (
        ground arith,
        wrapped_rows 0 left,
        (Returned-first (negsuc m) (wrapped_rows 0 left)).1
            (Returned-wrapped m 0 left (omega arith)),
        length-wrapped_rows 0 left ∙ e,
      )

  -- For a number that is not negative, blackhole_tuplestore ends with as many rows as the number, and
  -- these rows, and no others, are what the calls of blackhole_value_per_call return up to the end of the
  -- set. For a negative number blackhole_tuplestore has no row, and the calls of
  -- blackhole_value_per_call return 2 ^ 64 less the absolute value of the number, up to the end of the
  -- set: the two disagree.
  pub blackhole_agreement :
      (n m : ℕ)
      → n < 2 ^ 31
      → m < 2 ^ 31
      → (rows : List Row) × (blackhole_tuplestore print_int (pos n) ≡ some rows)
        × (length rows ≡ n)
        × Returned print_int (pos n) none rows
        × ((others : List Row) → Returned print_int (pos n) none others → others ≡ rows)
        × (blackhole_tuplestore print_int (negsuc m) ≡ some [])
        × (more : List Row) × Returned print_int (negsuc m) none more
        × (length more ≡ 2 ^ 64 - 1 - m)
  blackhole_agreement n m small small' =
      let (empty, more, returned, many) = negative_rows m in
      (
        rows_from 0 n,
        put_rows-all n,
        length-rows_from 0 n,
        (Returned-first (pos n) (rows_from 0 n)).1 (Returned-rows n 0 n small (omega arith)),
        λ others r.
            Returned-unique n 0 n others small (omega arith) ((Returned-first (pos n) others).0 r),
        empty,
        more,
        returned,
        many,
      )
