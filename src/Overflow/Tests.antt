-- ===== src/Overflow/Tests.antt =====
-- overflow/ on small inputs: tests, and the theorems applied.
use pg_plugins.Base.{◌-◌, ◌^◌, ◌≡◌, refl, Bool, true, false, not, arith, codes, str_eq}
use pg_plugins.Base.Int.{ℤ}
use pg_plugins.Base.Result.{ok, err}
use pg_plugins.Overflow.Check.{
  IntOps, unsupported_type, parse_type, parse_operation, check_rounds, check_type, check_int16,
  check_int32, check_int64, check_uint16, check_uint32, check_uint64, pg_overflow_check,
}
use pg_plugins.Overflow.Exact.{
  Word, s16, s32, s64, u16, u32, u64, Operation, add, sub, mul, word_name, operation_name, value_at,
  fits, exact, Documented, overflow_check_exact, int64_checked_as_int32,
}
use pg_plugins.Overflow.Agreement.{sql_function, overflow_check_agrees}

abbrev answer : Word → Operation → ℤ → ℤ → Bool
answer w o a b = not (fits w (exact o a b))

abbrev ops : IntOps
ops = record {
  pg_add_s16_overflow = answer s16 add;
  pg_sub_s16_overflow = answer s16 sub;
  pg_mul_s16_overflow = answer s16 mul;
  pg_add_s32_overflow = answer s32 add;
  pg_sub_s32_overflow = answer s32 sub;
  pg_mul_s32_overflow = answer s32 mul;
  pg_add_s64_overflow = answer s64 add;
  pg_sub_s64_overflow = answer s64 sub;
  pg_mul_s64_overflow = answer s64 mul;
  pg_add_u16_overflow = answer u16 add;
  pg_sub_u16_overflow = answer u16 sub;
  pg_mul_u16_overflow = answer u16 mul;
  pg_add_u32_overflow = answer u32 add;
  pg_sub_u32_overflow = answer u32 sub;
  pg_mul_u32_overflow = answer u32 mul;
  pg_add_u64_overflow = answer u64 add;
  pg_sub_u64_overflow = answer u64 sub;
  pg_mul_u64_overflow = answer u64 mul;
}

ops-Documented : Documented ops
ops-Documented s16 add a b _ _ = refl
ops-Documented s16 sub a b _ _ = refl
ops-Documented s16 mul a b _ _ = refl
ops-Documented _ add a b _ _ = refl
ops-Documented _ sub a b _ _ = refl
ops-Documented _ mul a b _ _ = refl

-- 32767 + 1 does not fit an int16, and 3 - 4 does not fit a uint32.
overflow_test :
    (pg_overflow_check ops 32767 1 1 (codes "int16") (codes "add") ≡ ok true)
    × (pg_overflow_check ops 3 4 1 (codes "uint32") (codes "sub") ≡ ok true)
    × (pg_overflow_check ops 32767 1 0 (codes "int16") (codes "add") ≡ ok false)
    × (pg_overflow_check ops 1 1 1 (codes "int8") (codes "add") ≡ err unsupported_type)
unfolding pg_overflow_check parse_type parse_operation str_eq check_type check_int16 check_int32
    check_int64 check_uint16 check_uint32 check_uint64 check_rounds fits exact
overflow_test = (refl, refl, refl, refl)

-- 2 ^ 31 + 0, as int64: the sum fits, and the answer is that of 2 ^ 31 - 2 ^ 32 + 0 as int32.
int64_test :
    (pg_overflow_check ops (2 ^ 31 - 1) 1 1 (codes "int64") (codes "add") ≡ ok true)
    × (fits s64 (exact add (value_at s64 (2 ^ 31 - 1)) (value_at s64 1)) ≡ true)
unfolding pg_overflow_check parse_type parse_operation str_eq check_type check_int16 check_int32
    check_int64 check_uint16 check_uint32 check_uint64 check_rounds fits exact
int64_test = (refl, refl)

overflow_check_exact_example :
    pg_overflow_check ops 65535 2 3 (word_name u16) (operation_name mul)
    ≡ ok (not (fits u16 (exact mul (value_at u16 65535) (value_at u16 2))))
overflow_check_exact_example =
    overflow_check_exact ops ops-Documented 65535 2 3 u16 mul (omega arith) (λ e. cc e)

int64_checked_as_int32_example :
    pg_overflow_check ops (2 ^ 31 - 1) 1 1 (word_name s64) (operation_name add)
    ≡ ok (not (fits s32 (exact add (value_at s32 (2 ^ 31 - 1)) (value_at s32 1))))
int64_checked_as_int32_example =
    int64_checked_as_int32 ops ops-Documented (2 ^ 31 - 1) 1 1 add (omega arith)

overflow_check_agrees_example :
    pg_overflow_check ops 65535 2 3 (word_name s32) (operation_name mul)
    ≡ ok (sql_function ops s32 mul 65535 2)
overflow_check_agrees_example =
    overflow_check_agrees ops 65535 2 3 s32 mul (omega arith) (λ e. cc e)
