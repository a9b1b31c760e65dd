-- ===== src/Blackhole/Functions.antt =====
-- blackhole/blackhole.c: blackhole, blackhole_tuplestore and blackhole_value_per_call.
use pg_plugins.Base.{
  ℕ, zero, suc, ◌+◌, ◌-◌, ◌%◌, ◌^◌, Bool, true, not, Option, none, some, List, [], ◌∷◌, ◌++◌, Bytes,
  codes, ltb, take, if◌then◌else◌, ◌≡◌,
}
use pg_plugins.Base.Int.{ℤ, pos, negsuc, pos_part, ltb_ℤ}
use pg_plugins.Base.Memory.{◌>>=◌}
use pg_plugins.Base.Result.{Result, ok, err}

-- The function blackhole: NULL.
abbrev pub blackhole : Option ℕ
blackhole = none

-- A row of a set: an int4 and a text.
abbrev pub Row : Type 0
Row = ℤ × Bytes

-- The conversion of a uint64 to an int32.
unfoldable pub int32 : ℕ → ℤ
int32 n = if ltb (n % 2 ^ 32) (2 ^ 31) then pos (n % 2 ^ 32) else negsuc (2 ^ 32 - 1 - n % 2 ^ 32)

-- The conversion of an int to a uint64.
unfoldable pub uint64 : ℤ → ℕ
uint64 (pos n) = n % 2 ^ 64
uint64 (negsuc n) = 2 ^ 64 - 1 - n

-- The conversion of a uint64 to a long long.
unfoldable pub int64 : ℕ → ℤ
int64 n = if ltb (n % 2 ^ 64) (2 ^ 63) then pos (n % 2 ^ 64) else negsuc (2 ^ 64 - 1 - n % 2 ^ 64)

-- The test at the row type, with its message.
pub data SrfError : Type 0 where
  not_row_type : SrfError

-- SRF_RETURN_NEXT with a row, or SRF_RETURN_DONE.
pub data Answer : Type 0 where
  return_next : Row → Answer
  return_done : Answer

-- For the printing of a number in decimal, as %d and %lld have it.
module _ (print_int : ℤ → Bytes) where
  -- snprintf into a buffer of 32 bytes, with its NUL.
  abbrev pub data_text : ℤ → Bytes
  data_text n = take 31 (codes "data " ++ print_int n)

  -- The loop on count, on fuel.
  unfoldable pub put_rows : (fuel : ℕ) (num : ℤ) (count : ℕ) → Option (List Row)
  put_rows zero num count = none
  put_rows (suc fuel) num count =
      let rest = put_rows fuel num (count + 1) in
      if ltb_ℤ (pos count) num
      then (do rows ← rest; some ((pos count, data_text (pos count)) ∷ rows))
      else some []

  unfoldable pub blackhole_tuplestore : (num : ℤ) → Option (List Row)
  unfolding put_rows
  blackhole_tuplestore num = put_rows (suc (pos_part num)) num 0

  -- What is done on every call, with call_cntr: the answer, and the context that is left. The comparison
  -- of call_cntr, of 64 bits without a sign, with num converts num.
  unfoldable pub per_call : (num : ℤ) (call_cntr : ℕ) → Answer × Option ℕ
  unfolding int32 uint64 int64
  per_call num call_cntr =
      if ltb call_cntr (uint64 num)
      then (
        return_next (int32 call_cntr, data_text (int64 call_cntr)),
        some ((call_cntr + 1) % 2 ^ 64),
      )
      else (return_done, none)

  -- One call. The context is none in front of the first one.
  unfoldable pub blackhole_value_per_call :
      (row_type : Bool) (num : ℤ) → Option ℕ → Result SrfError (Answer × Option ℕ)
  unfolding per_call
  blackhole_value_per_call row_type num none =
      if not row_type then err not_row_type else ok (per_call num 0)
  blackhole_value_per_call row_type num (some call_cntr) = ok (per_call num call_cntr)

  -- The rows of the calls from a context on, up to the end of the set.
  pub data Returned (num : ℤ) : Option ℕ → List Row → Type 0 where
    done :
        {context : Option ℕ}
        → blackhole_value_per_call true num context ≡ ok (return_done, none)
        → Returned num context []
    next :
        {context context' : Option ℕ} {rows : List Row} (row : Row)
        → blackhole_value_per_call true num context ≡ ok (return_next row, context')
        → Returned num context' rows
        → Returned num context (row ∷ rows)
