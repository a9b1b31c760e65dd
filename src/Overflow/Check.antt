-- ===== src/Overflow/Check.antt =====
-- overflow/overflow.c: the names of the types and operations, the switch of pg_overflow_check with a
-- loop in each case, and the conversions between the integers of C.
use pg_plugins.Base.{
  ℕ, zero, suc, ◌-◌, ◌^◌, ◌%◌, Bool, false, Bytes, codes, ltb, if◌then◌else◌, str_eq,
}
use pg_plugins.Base.Int.{ℤ, pos, negsuc, pos_part}
use pg_plugins.Base.Result.{Result, ok, err, ◌>>=◌}

-- The functions of the server's common/int.h, which say whether a result does not fit.
pub record IntOps : Type 0 where
  pub pg_add_s16_overflow : ℤ → ℤ → Bool
  pub pg_sub_s16_overflow : ℤ → ℤ → Bool
  pub pg_mul_s16_overflow : ℤ → ℤ → Bool
  pub pg_add_s32_overflow : ℤ → ℤ → Bool
  pub pg_sub_s32_overflow : ℤ → ℤ → Bool
  pub pg_mul_s32_overflow : ℤ → ℤ → Bool
  pub pg_add_s64_overflow : ℤ → ℤ → Bool
  pub pg_sub_s64_overflow : ℤ → ℤ → Bool
  pub pg_mul_s64_overflow : ℤ → ℤ → Bool
  pub pg_add_u16_overflow : ℤ → ℤ → Bool
  pub pg_sub_u16_overflow : ℤ → ℤ → Bool
  pub pg_mul_u16_overflow : ℤ → ℤ → Bool
  pub pg_add_u32_overflow : ℤ → ℤ → Bool
  pub pg_sub_u32_overflow : ℤ → ℤ → Bool
  pub pg_mul_u32_overflow : ℤ → ℤ → Bool
  pub pg_add_u64_overflow : ℤ → ℤ → Bool
  pub pg_sub_u64_overflow : ℤ → ℤ → Bool
  pub pg_mul_u64_overflow : ℤ → ℤ → Bool

pub data PgOverflowType : Type 0 where
  none int16 int32 int64 uint16 uint32 uint64 : PgOverflowType

pub data PgOverflowOpr : Type 0 where
  opr_none opr_add opr_sub opr_mul : PgOverflowOpr

pub data Unsupported : Type 0 where
  unsupported_type unsupported_operation : Unsupported

unfoldable pub parse_type : Bytes → Result Unsupported PgOverflowType
parse_type type_str =
    if str_eq type_str (codes "int16")
    then ok int16
    else if str_eq type_str (codes "int32")
    then ok int32
    else if str_eq type_str (codes "int64")
    then ok int32
    else if str_eq type_str (codes "uint16")
    then ok uint16
    else if str_eq type_str (codes "uint32")
    then ok uint32
    else if str_eq type_str (codes "uint64")
    then ok uint64
    else err unsupported_type

unfoldable pub parse_operation : Bytes → Result Unsupported PgOverflowOpr
parse_operation opr_str =
    if str_eq opr_str (codes "add")
    then ok opr_add
    else if str_eq opr_str (codes "sub")
    then ok opr_sub
    else if str_eq opr_str (codes "mul")
    then ok opr_mul
    else err unsupported_operation

-- The integers of C, from the bits of a Datum.
abbrev pub to_signed : ℕ → ℕ → ℤ
to_signed w d = let n = d % 2 ^ w in if ltb n (2 ^ (w - 1)) then pos n else negsuc (2 ^ w - 1 - n)

abbrev pub to_unsigned : ℕ → ℕ → ℤ
to_unsigned w d = pos (d % 2 ^ w)

-- The bits of an int64.
abbrev pub bits64 : ℤ → ℕ
bits64 (pos n) = n % 2 ^ 64
bits64 (negsuc n) = 2 ^ 64 - 1 - n % 2 ^ 64

-- `for (i = 0; i < count; i++) result = value;` over the rounds left.
unfoldable pub check_rounds : ℕ → Bool → Bool → Bool
check_rounds zero value result = result
check_rounds (suc rounds) value result = check_rounds rounds value value

module _ (ops : IntOps) (count v1 v2 : ℤ) where
  -- The loop, with the result that pg_overflow_check starts with.
  abbrev repeated : Bool → Bool
  repeated value = check_rounds (pos_part count) value false

  unfoldable pub check_int16 : PgOverflowOpr → Bool
  unfolding check_rounds
  check_int16 opr =
      let val1 = to_signed 16 (bits64 v1) in
      let val2 = to_signed 16 (bits64 v2) in
      elim opr [
        | opr_add ↦ repeated (ops.pg_add_s16_overflow val1 val2)
        | opr_sub ↦ repeated (ops.pg_sub_s16_overflow val1 val2)
        | opr_mul ↦ repeated (ops.pg_mul_s16_overflow val1 val2)
        | opr_none ↦ false
      ]

  unfoldable pub check_int32 : PgOverflowOpr → Bool
  unfolding check_rounds
  check_int32 opr =
      let val1 = to_signed 32 (bits64 v1) in
      let val2 = to_signed 32 (bits64 v2) in
      elim opr [
        | opr_add ↦ repeated (ops.pg_add_s32_overflow val1 val2)
        | opr_sub ↦ repeated (ops.pg_sub_s32_overflow val1 val2)
        | opr_mul ↦ repeated (ops.pg_mul_s32_overflow val1 val2)
        | opr_none ↦ false
      ]

  unfoldable pub check_int64 : PgOverflowOpr → Bool
  unfolding check_rounds
  check_int64 opr =
      let val1 = to_signed 64 (bits64 v1) in
      let val2 = to_signed 64 (bits64 v2) in
      elim opr [
        | opr_add ↦ repeated (ops.pg_add_s64_overflow val1 val2)
        | opr_sub ↦ repeated (ops.pg_sub_s64_overflow val1 val2)
        | opr_mul ↦ repeated (ops.pg_mul_s64_overflow val1 val2)
        | opr_none ↦ false
      ]

  unfoldable pub check_uint16 : PgOverflowOpr → Bool
  unfolding check_rounds
  check_uint16 opr =
      let val1 = to_unsigned 16 (bits64 v1) in
      let val2 = to_unsigned 16 (bits64 v2) in
      elim opr [
        | opr_add ↦ repeated (ops.pg_add_u16_overflow val1 val2)
        | opr_sub ↦ repeated (ops.pg_sub_u16_overflow val1 val2)
        | opr_mul ↦ repeated (ops.pg_mul_u16_overflow val1 val2)
        | opr_none ↦ false
      ]

  unfoldable pub check_uint32 : PgOverflowOpr → Bool
  unfolding check_rounds
  check_uint32 opr =
      let val1 = to_unsigned 32 (bits64 v1) in
      let val2 = to_unsigned 32 (bits64 v2) in
      elim opr [
        | opr_add ↦ repeated (ops.pg_add_u32_overflow val1 val2)
        | opr_sub ↦ repeated (ops.pg_sub_u32_overflow val1 val2)
        | opr_mul ↦ repeated (ops.pg_mul_u32_overflow val1 val2)
        | opr_none ↦ false
      ]

  unfoldable pub check_uint64 : PgOverflowOpr → Bool
  unfolding check_rounds
  check_uint64 opr =
      let val1 = to_unsigned 64 (bits64 v1) in
      let val2 = to_unsigned 64 (bits64 v2) in
      elim opr [
        | opr_add ↦ repeated (ops.pg_add_u64_overflow val1 val2)
        | opr_sub ↦ repeated (ops.pg_sub_u64_overflow val1 val2)
        | opr_mul ↦ repeated (ops.pg_mul_u64_overflow val1 val2)
        | opr_none ↦ false
      ]

  -- The switch over the type.
  unfoldable pub check_type : PgOverflowType → PgOverflowOpr → Bool
  check_type int16 opr = check_int16 opr
  check_type int32 opr = check_int32 opr
  check_type int64 opr = check_int64 opr
  check_type uint16 opr = check_uint16 opr
  check_type uint32 opr = check_uint32 opr
  check_type uint64 opr = check_uint64 opr
  check_type none opr = false

module _ (ops : IntOps) where
  -- The arguments are those of SQL, by their Datums.
  unfoldable pub pg_overflow_check :
      (arg0 arg1 arg2 : ℕ) (type_str opr_str : Bytes) → Result Unsupported Bool
  pg_overflow_check arg0 arg1 arg2 type_str opr_str = do
    let v1 = to_signed 64 arg0
    let v2 = to_signed 64 arg1
    let count = to_signed 32 arg2
    type ← parse_type type_str
    opr ← parse_operation opr_str
    ok (check_type ops count v1 v2 type opr)
