-- ===== src/Overflow/Agreement.antt =====
-- overflow/: the loop of pg_overflow_check against the SQL functions of int.c and uint.c.
use pg_plugins.Base.{ℕ, ◌<◌, ◌≡◌, ◌≢◌, refl, Bool}
use mathlib.Core.Path.{ap₂}
use pg_plugins.Base.Int.{pos_part}
use pg_plugins.Base.Result.{ok}
use pg_plugins.Overflow.Check.{IntOps, to_signed, pg_overflow_check}
use pg_plugins.Overflow.Functions.{
  pg_add_int16_overflow, pg_sub_int16_overflow, pg_mul_int16_overflow, pg_add_int32_overflow,
  pg_sub_int32_overflow, pg_mul_int32_overflow, pg_add_int64_overflow, pg_sub_int64_overflow,
  pg_mul_int64_overflow, pg_add_uint16_overflow, pg_sub_uint16_overflow, pg_mul_uint16_overflow,
  pg_add_uint32_overflow, pg_sub_uint32_overflow, pg_mul_uint32_overflow, pg_add_uint64_overflow,
  pg_sub_uint64_overflow, pg_mul_uint64_overflow,
}
use pg_plugins.Overflow.Exact.{
  Word, s16, s32, s64, u16, u32, u64, Operation, add, sub, mul, word_name, operation_name, value_at,
  overflow_of, parse_type-word_name, parse_operation-operation_name, check_type-rounds,
  check_rounds_positive, value_at-bits64,
}

-- The SQL function of a type and an operation.
abbrev pub sql_function : IntOps → Word → Operation → ℕ → ℕ → Bool
sql_function ops s16 add = pg_add_int16_overflow ops
sql_function ops s16 sub = pg_sub_int16_overflow ops
sql_function ops s16 mul = pg_mul_int16_overflow ops
sql_function ops s32 add = pg_add_int32_overflow ops
sql_function ops s32 sub = pg_sub_int32_overflow ops
sql_function ops s32 mul = pg_mul_int32_overflow ops
sql_function ops s64 add = pg_add_int64_overflow ops
sql_function ops s64 sub = pg_sub_int64_overflow ops
sql_function ops s64 mul = pg_mul_int64_overflow ops
sql_function ops u16 add = pg_add_uint16_overflow ops
sql_function ops u16 sub = pg_sub_uint16_overflow ops
sql_function ops u16 mul = pg_mul_uint16_overflow ops
sql_function ops u32 add = pg_add_uint32_overflow ops
sql_function ops u32 sub = pg_sub_uint32_overflow ops
sql_function ops u32 mul = pg_mul_uint32_overflow ops
sql_function ops u64 add = pg_add_uint64_overflow ops
sql_function ops u64 sub = pg_sub_uint64_overflow ops
sql_function ops u64 mul = pg_mul_uint64_overflow ops

sql_function_lem :
    (ops : IntOps) (w : Word) (o : Operation) (arg0 arg1 : ℕ)
    → sql_function ops w o arg0 arg1 ≡ overflow_of ops w o (value_at w arg0) (value_at w arg1)
unfolding pg_add_int16_overflow pg_sub_int16_overflow pg_mul_int16_overflow pg_add_int32_overflow
    pg_sub_int32_overflow pg_mul_int32_overflow pg_add_int64_overflow pg_sub_int64_overflow
    pg_mul_int64_overflow pg_add_uint16_overflow pg_sub_uint16_overflow pg_mul_uint16_overflow
    pg_add_uint32_overflow pg_sub_uint32_overflow pg_mul_uint32_overflow pg_add_uint64_overflow
    pg_sub_uint64_overflow pg_mul_uint64_overflow
sql_function_lem ops u64 add arg0 arg1 =
    ap₂ ops.pg_add_u64_overflow (value_at-bits64 u64 arg0) (value_at-bits64 u64 arg1)
sql_function_lem ops u64 sub arg0 arg1 =
    ap₂ ops.pg_sub_u64_overflow (value_at-bits64 u64 arg0) (value_at-bits64 u64 arg1)
sql_function_lem ops u64 mul arg0 arg1 =
    ap₂ ops.pg_mul_u64_overflow (value_at-bits64 u64 arg0) (value_at-bits64 u64 arg1)
sql_function_lem ops _ add arg0 arg1 = refl
sql_function_lem ops _ sub arg0 arg1 = refl
sql_function_lem ops _ mul arg0 arg1 = refl

-- With a positive count, and for each type name but "int64", pg_overflow_check gives the same answer
-- as the SQL function of that type and operation on the same arguments.
pub overflow_check_agrees :
    (ops : IntOps) (arg0 arg1 arg2 : ℕ) (w : Word) (o : Operation)
    → 0 < pos_part (to_signed 32 arg2)
    → w ≢ s64
    → pg_overflow_check ops arg0 arg1 arg2 (word_name w) (operation_name o)
      ≡ ok (sql_function ops w o arg0 arg1)
unfolding pg_overflow_check
overflow_check_agrees ops arg0 arg1 arg2 w o positive other = rw (
  parse_type-word_name w other,
  parse_operation-operation_name o,
  check_type-rounds ops (to_signed 32 arg2) (to_signed 64 arg0) (to_signed 64 arg1) w o,
  value_at-bits64 w arg0,
  value_at-bits64 w arg1,
  check_rounds_positive (to_signed 32 arg2)
      (overflow_of ops w o (value_at w arg0) (value_at w arg1)) positive,
  sql_function_lem ops w o arg0 arg1,
)
