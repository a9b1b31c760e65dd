-- ===== src/DecoderRaw/Literals.antt =====
-- decoder_raw/decoder_raw.c: the literals of print_literal against the lexical rules of SQL for a
-- standard-conforming string.
use pg_plugins.Base.{
  ℕ, ◌≡◌, refl, Bool, true, false, Option, none, some, [], ◌∷◌, ◌++◌, append_assoc, arith, Bytes,
  ◌==◌, if◌then◌else◌,
}
use pg_plugins.DecoderRaw.Types.{other_oid, Backend}
use pg_plugins.DecoderRaw.Print.{first_char, double_quotes, print_literal}

-- Puts a character in front of the text that was read.
abbrev prepend : ℕ → Option (Bytes × Bytes) → Option (Bytes × Bytes)
prepend c none = none
prepend c (some (text, rest)) = some (c ∷ text, rest)

-- The text of a literal behind its opening quote, and what follows its closing quote. `closing` is
-- true behind a quote, which ends the literal unless another follows.
unfoldable pub scan_quoted : Bool → Bytes → Option (Bytes × Bytes)
scan_quoted false [] = none
scan_quoted true [] = some ([], [])
scan_quoted false (c ∷ s) =
    if c == b'\'' then scan_quoted true s else prepend c (scan_quoted false s)
scan_quoted true (c ∷ s) = if c == b'\'' then prepend c (scan_quoted false s) else some ([], c ∷ s)

unfoldable pub scan_literal : Bytes → Option (Bytes × Bytes)
scan_literal [] = none
scan_literal (c ∷ s) = if c == b'\'' then scan_quoted false s else none

module _ {Datum : Type 0} (be : Backend Datum)
    (doubled : (ch : ℕ) → be.sql_str_double ch false ≡ (ch == b'\'')) where
  scan_end :
      (rest : Bytes)
      → (first_char rest == b'\'') ≡ false
      → scan_quoted false (b'\'' ∷ rest) ≡ some ([], rest)
  unfolding scan_quoted
  scan_end [] other = refl
  scan_end (c ∷ rest) other = rw other

  scan_body :
      (outputstr rest : Bytes)
      → (first_char rest == b'\'') ≡ false
      → scan_quoted false (double_quotes be outputstr ++ b'\'' ∷ rest) ≡ some (outputstr, rest)
  unfolding double_quotes scan_quoted
  scan_body [] rest other = scan_end rest other
  scan_body (ch ∷ s) rest other = ground (arith, doubled ch, scan_body s rest other)

  -- A text of a quoted type, printed in front of anything but a quote, is read back as one string
  -- literal with that text, and the rest is left, where the server doubles the single quotes.
  pub literal_roundtrip :
      (typid : ℕ) (outputstr rest : Bytes)
      → (first_char rest == b'\'') ≡ false
      → scan_literal (print_literal be (other_oid typid) outputstr ++ rest) ≡ some (outputstr, rest)
  unfolding print_literal scan_literal
  literal_roundtrip typid outputstr rest other = simp append_assoc (scan_body outputstr rest other)
