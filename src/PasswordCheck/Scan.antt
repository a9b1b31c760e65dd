-- ===== src/PasswordCheck/Scan.antt =====
-- The loop of `check_password` over the characters, which collects the classes that it has seen in
-- the bits of `password_flag`.
use Prim.Native.Nat.{bit_and, bit_or}
use pg_plugins.Base.{ℕ, Bool, not, Option, none, some, [], ◌∷◌, Bytes, ◌==◌, if◌then◌else◌, strchr}

-- The PASSWORD_HAS_* bits.
abbrev pub has_lower : ℕ
has_lower = 0x0001

abbrev pub has_upper : ℕ
has_upper = 0x0002

abbrev pub has_special : ℕ
has_special = 0x0004

abbrev pub has_number : ℕ
has_number = 0x0008

-- isupper, islower and isdigit of libc in the server's locale.
pub record Ctype : Type 0 where
  pub isupper : ℕ → Bool
  pub islower : ℕ → Bool
  pub isdigit : ℕ → Bool

-- (flag & bit) != 0
abbrev pub has : ℕ → ℕ → Bool
has flag bit = not (bit_and flag bit == 0)

module _ (c : Ctype) (special_chars : Bytes) where
  -- The bit that one character sets; none is the error "password contains invalid characters".
  unfoldable pub class_of : ℕ → Option ℕ
  class_of ch =
      if c.isupper ch
      then some has_upper
      else if c.islower ch
      then some has_lower
      else if c.isdigit ch
      then some has_number
      else if strchr special_chars ch
      then some has_special
      else none

  unfoldable pub scan : ℕ → Bytes → Option ℕ
  scan flag [] = some flag
  scan flag (ch ∷ rest) = elim (class_of ch) [
    | none ↦ none
    | some bit ↦ scan (bit_or flag bit) rest
  ]
