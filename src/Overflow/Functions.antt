-- ===== src/Overflow/Functions.antt =====
-- overflow/int.c and overflow/uint.c: the SQL functions, each on the Datums of its two arguments.
use pg_plugins.Base.{ℕ, Bool}
use pg_plugins.Overflow.Check.{IntOps, to_signed, to_unsigned, bits64}

module _ (ops : IntOps) (arg0 arg1 : ℕ) where
  unfoldable pub pg_add_int16_overflow : Bool
  pg_add_int16_overflow = ops.pg_add_s16_overflow (to_signed 16 arg0) (to_signed 16 arg1)

  unfoldable pub pg_sub_int16_overflow : Bool
  pg_sub_int16_overflow = ops.pg_sub_s16_overflow (to_signed 16 arg0) (to_signed 16 arg1)

  unfoldable pub pg_mul_int16_overflow : Bool
  pg_mul_int16_overflow = ops.pg_mul_s16_overflow (to_signed 16 arg0) (to_signed 16 arg1)

  unfoldable pub pg_add_int32_overflow : Bool
  pg_add_int32_overflow = ops.pg_add_s32_overflow (to_signed 32 arg0) (to_signed 32 arg1)

  unfoldable pub pg_sub_int32_overflow : Bool
  pg_sub_int32_overflow = ops.pg_sub_s32_overflow (to_signed 32 arg0) (to_signed 32 arg1)

  unfoldable pub pg_mul_int32_overflow : Bool
  pg_mul_int32_overflow = ops.pg_mul_s32_overflow (to_signed 32 arg0) (to_signed 32 arg1)

  unfoldable pub pg_add_int64_overflow : Bool
  pg_add_int64_overflow = ops.pg_add_s64_overflow (to_signed 64 arg0) (to_signed 64 arg1)

  unfoldable pub pg_sub_int64_overflow : Bool
  pg_sub_int64_overflow = ops.pg_sub_s64_overflow (to_signed 64 arg0) (to_signed 64 arg1)

  unfoldable pub pg_mul_int64_overflow : Bool
  pg_mul_int64_overflow = ops.pg_mul_s64_overflow (to_signed 64 arg0) (to_signed 64 arg1)

  unfoldable pub pg_add_uint16_overflow : Bool
  pg_add_uint16_overflow = ops.pg_add_u16_overflow (to_unsigned 16 arg0) (to_unsigned 16 arg1)

  unfoldable pub pg_sub_uint16_overflow : Bool
  pg_sub_uint16_overflow = ops.pg_sub_u16_overflow (to_unsigned 16 arg0) (to_unsigned 16 arg1)

  unfoldable pub pg_mul_uint16_overflow : Bool
  pg_mul_uint16_overflow = ops.pg_mul_u16_overflow (to_unsigned 16 arg0) (to_unsigned 16 arg1)

  unfoldable pub pg_add_uint32_overflow : Bool
  pg_add_uint32_overflow = ops.pg_add_u32_overflow (to_unsigned 32 arg0) (to_unsigned 32 arg1)

  unfoldable pub pg_sub_uint32_overflow : Bool
  pg_sub_uint32_overflow = ops.pg_sub_u32_overflow (to_unsigned 32 arg0) (to_unsigned 32 arg1)

  unfoldable pub pg_mul_uint32_overflow : Bool
  pg_mul_uint32_overflow = ops.pg_mul_u32_overflow (to_unsigned 32 arg0) (to_unsigned 32 arg1)

  unfoldable pub pg_add_uint64_overflow : Bool
  pg_add_uint64_overflow =
      ops.pg_add_u64_overflow (to_unsigned 64 (bits64 (to_signed 64 arg0)))
        (to_unsigned 64 (bits64 (to_signed 64 arg1)))

  unfoldable pub pg_sub_uint64_overflow : Bool
  pg_sub_uint64_overflow =
      ops.pg_sub_u64_overflow (to_unsigned 64 (bits64 (to_signed 64 arg0)))
        (to_unsigned 64 (bits64 (to_signed 64 arg1)))

  unfoldable pub pg_mul_uint64_overflow : Bool
  pg_mul_uint64_overflow =
      ops.pg_mul_u64_overflow (to_unsigned 64 (bits64 (to_signed 64 arg0)))
        (to_unsigned 64 (bits64 (to_signed 64 arg1)))
