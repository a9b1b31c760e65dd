-- ===== src/HintParser/Scanner.antt =====
-- hint_parser/hint_scanner.l: the tokens of a string.
use pg_plugins.Base.{ℕ, Bool, ◌||◌, ◌&&◌, List, [], ◌∷◌, ◌++◌, Bytes, leb, ◌==◌, if◌then◌else◌}

pub data Token : Type 0 where
  name : Bytes → Token
  opening closing : Token

-- [A-Za-z0-9]
unfoldable pub is_name_char : ℕ → Bool
is_name_char c =
    (leb b'A' c && leb c b'Z') || (leb b'a' c && leb c b'z') || (leb b'0' c && leb c b'9')

-- The end of a name that is read, in front of the later tokens.
unfoldable pub flush : Bytes → List Token → List Token
flush [] tokens = tokens
flush (c ∷ text) tokens = name (c ∷ text) ∷ tokens

-- The tokens, with the name that is being read, which is the longest one; any other character is
-- ignored.
unfoldable pub scan : (yytext : Bytes) → Bytes → List Token
unfolding flush is_name_char
scan yytext [] = flush yytext []
scan yytext (c ∷ s) =
    let longer = scan (yytext ++ c ∷ []) s in
    let rest = scan [] s in
    if is_name_char c
    then longer
    else flush yytext
        (if c == b'(' then opening ∷ rest else if c == b')' then closing ∷ rest else rest)
