-- ===== src/PasswordCheck.antt =====
-- passwordcheck_extra/passwordcheck_extra.c: the hook `check_password` and its parameters.
-- The character classes of libc depend on the locale (`Ctype`); `pg_md5_encrypt` and cracklib's
-- `FascistCheck` are parameters. The scan and the message have a child module each.
mod Scan
mod Format
pub mod Classes
pub mod Missing
pub mod Accepts
pub mod Tests
pub use Scan.{Ctype, has_lower, has_upper, has_special, has_number, has}
unfoldable pub use Scan.{class_of, scan}
pub use Format.{
  Settings, default_special_chars, defaults, Class, lower, upper, number, special, class_bit,
}
unfoldable pub use Format.{complaint, comma, append_missing, missing_list}
use pg_plugins.Base.{
  ℕ, ◌+◌, Bool, true, false, Option, none, some, Bytes, ltb, length, str_eq, strstr,
}
use pg_plugins.Base.Result.{Result, ok, err, ◌>>=◌, ◌>>◌, raise_if}

-- PasswordType of commands/user.h
pub data PasswordType : Type 0 where
  plaintext md5 : PasswordType
  other : ℕ → PasswordType

-- The errors of `check_password`, in the order of the source.
pub data Rejected : Type 0 where
  md5_failed contains_user_name too_short too_long invalid_characters : Rejected
  incorrect_format : Bytes → Rejected
  easily_cracked : Rejected
  unrecognized_type : ℕ → Rejected

-- What the hook calls that is not part of the module. `md5_encrypt password salt` is the printed
-- hash; none is a failure. `fascist_check` is true where cracklib complains; without USE_CRACKLIB
-- it is false everywhere.
pub record Externals : Type 0 where
  pub ctype : Ctype
  pub md5_encrypt : Bytes → Bytes → Option Bytes
  pub fascist_check : Bytes → Bool

module _ (x : Externals) (g : Settings) where
  check_md5 : Bytes → Bytes → Result Rejected (Unit {0})
  check_md5 username password = elim (x.md5_encrypt username username) [
    | none ↦ err md5_failed
    | some encrypted ↦ raise_if (str_eq password encrypted) contains_user_name
  ]

  -- The message of the last test is empty exactly where nothing is missing.
  check_format : ℕ → Result Rejected (Unit {0})
  check_format password_flag =
      let message = missing_list g password_flag in
      raise_if (ltb 0 (length message)) (incorrect_format message)

  check_plaintext : Bytes → Bytes → Result Rejected (Unit {0})
  unfolding check_format
  check_plaintext username password = do
    let pwdlen = length password
    raise_if (ltb pwdlen g.min_len) too_short
    raise_if (ltb g.max_len pwdlen) too_long
    raise_if (strstr password username) contains_user_name
    password_flag ← elim (scan x.ctype g.special_chars 0 password) [
      | none ↦ err invalid_characters
      | some flag ↦ ok flag
    ]
    check_format password_flag
    raise_if (x.fascist_check password) easily_cracked

  pub check_password : Bytes → Bytes → PasswordType → Result Rejected (Unit {0})
  unfolding check_md5 check_plaintext
  check_password username password md5 = check_md5 username password
  check_password username password plaintext = check_plaintext username password
  check_password username password (other n) = err (unrecognized_type n)
