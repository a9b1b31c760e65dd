-- ===== src/PasswordCheck/Tests.antt =====
-- Runs of the password check, and its theorems at concrete inputs.
use pg_plugins.Base.{
  ◌≡◌, ◌↔◌, refl, false, ◌&&◌, some, arith, codes, leb, strstr, strchr, strstr→not_Contains,
}
use pg_plugins.Base.Result.{ok, err}
use pg_plugins.PasswordCheck.{
  Ctype, Externals, defaults, plaintext, upper, incorrect_format, missing_list, append_missing,
  complaint, comma, class_of, scan, check_password, invalid_characters,
}
use pg_plugins.PasswordCheck.Missing.{enforced, format_message}
use pg_plugins.PasswordCheck.Accepts.{Acceptable, accepts_plaintext, incorrect_format_complete}
use pg_plugins.PasswordCheck.Classes.{all_valid, occurs, in_class}

-- The classes of the C locale; the hash is a stub that appends "md5".
abbrev c_locale : Ctype
c_locale = record {
  isupper = λ c. leb b'A' c && leb c b'Z';
  islower = λ c. leb b'a' c && leb c b'z';
  isdigit = λ c. leb b'0' c && leb c b'9';
}

abbrev plain : Externals
plain = record {
  ctype = c_locale;
  md5_encrypt = λ password salt. some (codes "md5");
  fascist_check = λ password. false;
}

good : check_password plain defaults (codes "bob") (codes "Sn0wball!") plaintext ≡ ok tt
unfolding check_password scan class_of missing_list append_missing strstr strchr
good = refl

lists_what_lacks :
    check_password plain defaults (codes "bob") (codes "snowball!") plaintext
    ≡ err (incorrect_format (codes "upper-case character missing, number missing"))
unfolding check_password scan class_of missing_list append_missing complaint comma strstr strchr
lists_what_lacks = refl

bad_character :
    check_password plain defaults (codes "bob") (codes "Sn0wball-") plaintext
    ≡ err invalid_characters
unfolding check_password scan class_of strstr strchr
bad_character = refl

accepts_plaintext_example :
    (check_password plain defaults (codes "bob") (codes "Sn0wball!") plaintext ≡ ok tt)
    ↔ Acceptable plain defaults (codes "bob") (codes "Sn0wball!")
accepts_plaintext_example = accepts_plaintext plain defaults (codes "bob") (codes "Sn0wball!")

incorrect_format_complete_example :
    check_password plain defaults (codes "bob") (codes "snowball!") plaintext
    ≡ err (incorrect_format (format_message c_locale defaults (codes "snowball!")))
unfolding all_valid occurs in_class enforced strstr strchr
incorrect_format_complete_example =
    incorrect_format_complete plain defaults (codes "bob") (codes "snowball!") upper (omega arith)
      (omega arith) (strstr→not_Contains (codes "snowball!") (codes "bob") refl) refl refl refl
