-- ===== src/PasswordCheck/Format.antt =====
-- The parameters of the module, and the message that lists the classes a password lacks.
use pg_plugins.Base.{ℕ, Bool, true, false, ◌&&◌, not, [], ◌++◌, Bytes, codes, if◌then◌else◌}
use pg_plugins.PasswordCheck.Scan.{has_lower, has_upper, has_special, has_number, has}

-- The variables that `passwordcheck_extra_load_params` defines.
pub record Settings : Type 0 where
  pub min_len : ℕ
  pub max_len : ℕ
  pub lower_case : Bool
  pub upper_case : Bool
  pub special : Bool
  pub numbers : Bool
  pub special_chars : Bytes

-- The default of `passwordcheck_extra.special_chars`.
abbrev pub default_special_chars : Bytes
default_special_chars = codes "!@#$%^&*()_+{}|<>?="

-- Their defaults.
abbrev pub defaults : Settings
defaults = record {
  min_len = 8;
  max_len = 15;
  lower_case = true;
  upper_case = true;
  special = true;
  numbers = true;
  special_chars = default_special_chars;
}

pub data Class : Type 0 where
  lower upper number special : Class

abbrev pub class_bit : Class → ℕ
class_bit lower = has_lower
class_bit upper = has_upper
class_bit number = has_number
class_bit special = has_special

-- What the message says of a class that is missing.
unfoldable pub complaint : Settings → Class → Bytes
complaint g lower = codes "lower-case character missing"
complaint g upper = codes "upper-case character missing"
complaint g number = codes "number missing"
complaint g special =
    codes "special character missing (needs to be one listed in \""
    ++ g.special_chars
    ++ codes "\")"

unfoldable pub comma : Bytes
comma = codes ", "

-- One of the four tests: `buf` and `set_comma` before and after it.
unfoldable pub append_missing : Settings → ℕ → Bool → Class → Bytes × Bool → Bytes × Bool
append_missing g flag enforced c (buf, set_comma) =
    if not (has flag (class_bit c)) && enforced
    then ((if set_comma then buf ++ comma else buf) ++ complaint g c, true)
    else (buf, set_comma)

unfoldable pub missing_list : Settings → ℕ → Bytes
missing_list g flag =
    (append_missing g flag g.special special (
      append_missing g flag g.numbers number (
        append_missing g flag g.upper_case upper
          (append_missing g flag g.lower_case lower ([], false))))).0
