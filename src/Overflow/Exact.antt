-- ===== src/Overflow/Exact.antt =====
-- overflow/: what the checks answer, by the exact results of the operations.
use pg_plugins.Base.{
  ℕ, zero, suc, ◌-◌, ◌^◌, ◌%◌, ◌<◌, ◌≡◌, ◌≢◌, refl, Bool, true, false, not, Bytes, codes, ltb,
  arith, ◌∙◌, ap, str_eq,
}
use pg_plugins.Base.Int.{ℤ, pos, negsuc, pos_part, ◌+ℤ◌, ◌-ℤ◌, ◌*ℤ◌}
use pg_plugins.Base.Result.{ok}
use pg_plugins.Overflow.Check.{
  IntOps, PgOverflowType, int16, int32, int64, uint16, uint32, uint64, PgOverflowOpr, opr_add,
  opr_sub, opr_mul, check_int16, check_int32, check_int64, check_uint16, check_uint32, check_uint64,
  parse_type, parse_operation, to_signed, to_unsigned, bits64, check_rounds, check_type,
  pg_overflow_check,
}

-- The types and the operations of C.
pub data Word : Type 0 where
  s16 s32 s64 u16 u32 u64 : Word

pub data Operation : Type 0 where
  add sub mul : Operation

abbrev pub word_name : Word → Bytes
word_name s16 = codes "int16"
word_name s32 = codes "int32"
word_name s64 = codes "int64"
word_name u16 = codes "uint16"
word_name u32 = codes "uint32"
word_name u64 = codes "uint64"

abbrev pub operation_name : Operation → Bytes
operation_name add = codes "add"
operation_name sub = codes "sub"
operation_name mul = codes "mul"

-- The value that a Datum has at a type.
abbrev pub value_at : Word → ℕ → ℤ
value_at s16 d = to_signed 16 d
value_at s32 d = to_signed 32 d
value_at s64 d = to_signed 64 d
value_at u16 d = to_unsigned 16 d
value_at u32 d = to_unsigned 32 d
value_at u64 d = to_unsigned 64 d

fits_signed : ℕ → ℤ → Bool
fits_signed w (pos n) = ltb n (2 ^ (w - 1))
fits_signed w (negsuc n) = ltb n (2 ^ (w - 1))

fits_unsigned : ℕ → ℤ → Bool
fits_unsigned w (pos n) = ltb n (2 ^ w)
fits_unsigned w (negsuc n) = false

-- The integer is a value of the type.
unfoldable pub fits : Word → ℤ → Bool
unfolding fits_signed fits_unsigned
fits s16 z = fits_signed 16 z
fits s32 z = fits_signed 32 z
fits s64 z = fits_signed 64 z
fits u16 z = fits_unsigned 16 z
fits u32 z = fits_unsigned 32 z
fits u64 z = fits_unsigned 64 z

unfoldable pub exact : Operation → ℤ → ℤ → ℤ
unfolding ◌+ℤ◌ ◌-ℤ◌ ◌*ℤ◌
exact add a b = a +ℤ b
exact sub a b = a -ℤ b
exact mul a b = a *ℤ b

abbrev pub overflow_of : IntOps → Word → Operation → ℤ → ℤ → Bool
overflow_of ops s16 add = ops.pg_add_s16_overflow
overflow_of ops s16 sub = ops.pg_sub_s16_overflow
overflow_of ops s16 mul = ops.pg_mul_s16_overflow
overflow_of ops s32 add = ops.pg_add_s32_overflow
overflow_of ops s32 sub = ops.pg_sub_s32_overflow
overflow_of ops s32 mul = ops.pg_mul_s32_overflow
overflow_of ops s64 add = ops.pg_add_s64_overflow
overflow_of ops s64 sub = ops.pg_sub_s64_overflow
overflow_of ops s64 mul = ops.pg_mul_s64_overflow
overflow_of ops u16 add = ops.pg_add_u16_overflow
overflow_of ops u16 sub = ops.pg_sub_u16_overflow
overflow_of ops u16 mul = ops.pg_mul_u16_overflow
overflow_of ops u32 add = ops.pg_add_u32_overflow
overflow_of ops u32 sub = ops.pg_sub_u32_overflow
overflow_of ops u32 mul = ops.pg_mul_u32_overflow
overflow_of ops u64 add = ops.pg_add_u64_overflow
overflow_of ops u64 sub = ops.pg_sub_u64_overflow
overflow_of ops u64 mul = ops.pg_mul_u64_overflow

-- What common/int.h documents: on two values of its type, a function returns true if the result
-- does not fit.
abbrev pub Documented : IntOps → Type 0
Documented ops =
    (w : Word) (o : Operation) (a b : ℤ)
    → fits w a ≡ true
    → fits w b ≡ true
    → overflow_of ops w o a b ≡ not (fits w (exact o a b))

-- The bits of an int64 are those of its Datum.
bits64-to_signed : (d : ℕ) → bits64 (to_signed 64 d) ≡ d % 2 ^ 64
bits64-to_signed d = ground arith

check_rounds-suc : (n : ℕ) (value result : Bool) → check_rounds (suc n) value result ≡ value
unfolding check_rounds
check_rounds-suc zero value result = refl
check_rounds-suc (suc n) value result = check_rounds-suc n value value

value_at-fits : (w : Word) (d : ℕ) → fits w (value_at w d) ≡ true
unfolding fits
value_at-fits s16 d = ground arith
value_at-fits s32 d = ground arith
value_at-fits s64 d = ground arith
value_at-fits _ d = ground arith

abbrev pub type_of : Word → PgOverflowType
type_of s16 = int16
type_of s32 = int32
type_of s64 = int64
type_of u16 = uint16
type_of u32 = uint32
type_of u64 = uint64

abbrev pub opr_of : Operation → PgOverflowOpr
opr_of add = opr_add
opr_of sub = opr_sub
opr_of mul = opr_mul

pub parse_type-word_name : (w : Word) → w ≢ s64 → parse_type (word_name w) ≡ ok (type_of w)
unfolding parse_type str_eq
parse_type-word_name s64 other = absurd (other refl)
parse_type-word_name _ other = refl

pub parse_operation-operation_name :
    (o : Operation) → parse_operation (operation_name o) ≡ ok (opr_of o)
unfolding parse_operation str_eq
parse_operation-operation_name add = refl
parse_operation-operation_name _ = refl

value_at-mod : (w : Word) (d : ℕ) → value_at w (d % 2 ^ 64) ≡ value_at w d
value_at-mod s16 d = let e : d % 2 ^ 64 % 2 ^ 16 ≡ d % 2 ^ 16 = omega arith in rw e
value_at-mod s32 d = let e : d % 2 ^ 64 % 2 ^ 32 ≡ d % 2 ^ 32 = omega arith in rw e
value_at-mod s64 d = let e : d % 2 ^ 64 % 2 ^ 64 ≡ d % 2 ^ 64 = omega arith in rw e
value_at-mod u16 d = let e : d % 2 ^ 64 % 2 ^ 16 ≡ d % 2 ^ 16 = omega arith in rw e
value_at-mod u32 d = let e : d % 2 ^ 64 % 2 ^ 32 ≡ d % 2 ^ 32 = omega arith in rw e
value_at-mod u64 d = let e : d % 2 ^ 64 % 2 ^ 64 ≡ d % 2 ^ 64 = omega arith in rw e

pub value_at-bits64 : (w : Word) (d : ℕ) → value_at w (bits64 (to_signed 64 d)) ≡ value_at w d
value_at-bits64 w d = rw (bits64-to_signed d) (value_at-mod w d)

pub check_type-rounds :
    (ops : IntOps) (count v1 v2 : ℤ) (w : Word) (o : Operation)
    → check_type ops count v1 v2 (type_of w) (opr_of o)
      ≡ check_rounds
          (pos_part count)
          (overflow_of ops w o (value_at w (bits64 v1)) (value_at w (bits64 v2)))
          false
unfolding check_type check_int16 check_int32 check_int64 check_uint16 check_uint32 check_uint64
check_type-rounds ops count v1 v2 s16 add = refl
check_type-rounds ops count v1 v2 s16 sub = refl
check_type-rounds ops count v1 v2 s16 mul = refl
check_type-rounds ops count v1 v2 _ add = refl
check_type-rounds ops count v1 v2 _ sub = refl
check_type-rounds ops count v1 v2 _ mul = refl

pub check_rounds_positive :
    (count : ℤ) (value : Bool)
    → 0 < pos_part count
    → check_rounds (pos_part count) value false ≡ value
check_rounds_positive (pos zero) value positive = absurd (omega arith)
check_rounds_positive (pos (suc n)) value positive = check_rounds-suc n value false
check_rounds_positive (negsuc n) value positive = absurd (omega arith)

module _ (ops : IntOps) (documented : Documented ops) where
  -- The check of a type asks its function for the values of the arguments at this type.
  check_type_lem :
      (count : ℤ) (d1 d2 : ℕ) (w : Word) (o : Operation)
      → 0 < pos_part count
      → check_type ops count (to_signed 64 d1) (to_signed 64 d2) (type_of w) (opr_of o)
        ≡ not (fits w (exact o (value_at w d1) (value_at w d2)))
  check_type_lem count d1 d2 w o positive =
      check_type-rounds ops count (to_signed 64 d1) (to_signed 64 d2) w o
      ∙ check_rounds_positive count _ positive
      ∙ rw (value_at-bits64 w d1, value_at-bits64 w d2)
          (documented w o _ _ (value_at-fits w d1) (value_at-fits w d2))

  -- With a positive count, and for each type name but "int64", pg_overflow_check tells whether the
  -- exact result of the operation, on the arguments converted to the type, does not fit the type.
  pub overflow_check_exact :
      (arg0 arg1 arg2 : ℕ) (w : Word) (o : Operation)
      → 0 < pos_part (to_signed 32 arg2)
      → w ≢ s64
      → pg_overflow_check ops arg0 arg1 arg2 (word_name w) (operation_name o)
        ≡ ok (not (fits w (exact o (value_at w arg0) (value_at w arg1))))
  unfolding pg_overflow_check
  overflow_check_exact arg0 arg1 arg2 w o positive other =
      rw (parse_type-word_name w other, parse_operation-operation_name o)
        (ap (λ (b : Bool). ok b) (check_type_lem (to_signed 32 arg2) arg0 arg1 w o positive))

  -- With a positive count, the type name "int64" has the arguments converted to int32, and the
  -- answer tells whether the exact result does not fit an int32.
  pub int64_checked_as_int32 :
      (arg0 arg1 arg2 : ℕ) (o : Operation)
      → 0 < pos_part (to_signed 32 arg2)
      → pg_overflow_check ops arg0 arg1 arg2 (word_name s64) (operation_name o)
        ≡ ok (not (fits s32 (exact o (value_at s32 arg0) (value_at s32 arg1))))
  unfolding pg_overflow_check parse_type str_eq
  int64_checked_as_int32 arg0 arg1 arg2 o positive =
      rw (parse_operation-operation_name o)
        (ap (λ (b : Bool). ok b) (check_type_lem (to_signed 32 arg2) arg0 arg1 s32 o positive))
