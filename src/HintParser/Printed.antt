-- ===== src/HintParser/Printed.antt =====
-- hint_parser/hint_parser.c: the hints written in a string are read back.
use pg_plugins.Base.{
  ℕ, ◌≡◌, ◌≢◌, refl, sym, ap, ◌∙◌, true, false, List, [], ◌∷◌, ◌++◌, append_assoc, append-nil,
  Bytes, codes, arith, ◌==◌, All, map,
}
use pg_plugins.Base.Result.{ok}
use pg_plugins.HintParser.Scanner.{name, opening, closing, is_name_char, flush, scan}
use pg_plugins.HintParser.Parser.{Hint, before_item, accept, parse, hint_parser}
use pg_plugins.HintParser.Grammar.{hint_item}

abbrev pub IsNameChar : ℕ → Type 0
IsNameChar c = is_name_char c ≡ true

-- A name: characters of names, one at least.
abbrev pub IsName : Bytes → Type 0
IsName text = (text ≢ []) × All IsNameChar text

-- A character that is in no token.
abbrev pub IsIgnored : ℕ → Type 0
IsIgnored c = (is_name_char c ≡ false) × ((c == b'(') ≡ false) × ((c == b')') ≡ false)

-- A hint in a string, with what stands in front of it, within it and behind it.
pub record Written : Type 0 where
  pub hint : Hint
  pub front : Bytes
  pub behind_name : Bytes
  pub behind_opening : Bytes
  pub behind_contents : Bytes

abbrev pub written_text : Written → Bytes
written_text w =
    w.front
    ++ (w.hint.name
        ++ (w.behind_name
            ++ (codes "("
                ++ (w.behind_opening ++ (w.hint.contents ++ (w.behind_contents ++ codes ")"))))))

abbrev pub IsWritten : Written → Type 0
IsWritten w =
    IsName w.hint.name
    × IsName w.hint.contents
    × All IsIgnored w.front
    × All IsIgnored w.behind_name
    × All IsIgnored w.behind_opening
    × All IsIgnored w.behind_contents

-- The string, with what stands behind the last hint.
abbrev pub string_of : List Written → Bytes → Bytes
string_of [] rest = rest
string_of (w ∷ ws) rest = written_text w ++ string_of ws rest

scan-name :
    (yytext text s : Bytes)
    → All IsNameChar text
    → scan yytext (text ++ s) ≡ scan (yytext ++ text) s
unfolding scan
scan-name yytext [] s h = ap (λ y. scan y s) (sym (append-nil yytext))
scan-name yytext (c ∷ text) s (hc, h) =
    rw hc (scan-name (yytext ++ c ∷ []) text s h)
    ∙ ap (λ y. scan y s) (append_assoc yytext (c ∷ []) text)

scan-ignored : (gap s : Bytes) → All IsIgnored gap → scan [] (gap ++ s) ≡ scan [] s
unfolding scan flush
scan-ignored [] s h = refl
scan-ignored (c ∷ gap) s ((no_name, no_opening, no_closing), h) =
    rw no_name (ground (arith, scan-ignored gap s h))

-- A string that does not go on with a character of a name.
abbrev EndsName : Bytes → Type 0
EndsName [] = Unit
EndsName (c ∷ s) = is_name_char c ≡ false

EndsName-ignored :
    (gap : Bytes) (c : ℕ) (s : Bytes)
    → All IsIgnored gap
    → is_name_char c ≡ false
    → EndsName (gap ++ c ∷ s)
EndsName-ignored [] c s h e = e
EndsName-ignored (g ∷ gap) c s ((no_name, _, _), h) e = no_name

flush-scan : (text s : Bytes) → EndsName s → scan text s ≡ flush text (scan [] s)
unfolding scan flush
flush-scan text [] h = refl
flush-scan text (c ∷ s) h = rw h refl

scan-end : (text s : Bytes) → IsName text → EndsName s → scan [] (text ++ s) ≡ name text ∷ scan [] s
unfolding flush
scan-end [] s (some_text, h) ends = absurd (some_text refl)
scan-end (c ∷ text) s (some_text, h) ends =
    scan-name [] (c ∷ text) s h ∙ flush-scan (c ∷ text) s ends

-- A hint in a string is its four tokens.
scan-Written :
    (w : Written) (rest : Bytes)
    → IsWritten w
    → scan [] (written_text w ++ rest) ≡ hint_item w.hint ++ scan [] rest
unfolding scan flush is_name_char
scan-Written w rest (hn, hc, front, after_name, after_opening, after_contents) =
    let close : Bytes = w.behind_contents ++ b')' ∷ rest in
    let inner : Bytes = w.behind_opening ++ (w.hint.contents ++ close) in
    let open_ : Bytes = w.behind_name ++ b'(' ∷ inner in
    let shape : written_text w ++ rest ≡ w.front ++ (w.hint.name ++ open_) = simp append_assoc in
    let last : scan [] close ≡ closing ∷ scan [] rest =
      scan-ignored w.behind_contents (b')' ∷ rest) after_contents in
    let contents : scan [] inner ≡ name w.hint.contents ∷ closing ∷ scan [] rest =
      scan-ignored w.behind_opening (w.hint.contents ++ close) after_opening
      ∙ scan-end w.hint.contents close hc
          (EndsName-ignored w.behind_contents b')' rest after_contents refl)
      ∙ ap (λ ts. name w.hint.contents ∷ ts) last in
    let opened : scan [] open_ ≡ opening ∷ name w.hint.contents ∷ closing ∷ scan [] rest =
      scan-ignored w.behind_name (b'(' ∷ inner) after_name ∙ ap (λ ts. opening ∷ ts) contents in
    ap (scan []) shape
    ∙ scan-ignored w.front (w.hint.name ++ open_) front
    ∙ scan-end w.hint.name open_ hn (EndsName-ignored w.behind_name b'(' inner after_name refl)
    ∙ ap (λ ts. name w.hint.name ∷ ts) opened

abbrev hints_of : List Written → List Hint
hints_of = map (λ w. w.hint)

parse-Written :
    (ws : List Written) (rest : Bytes) (hints : List Hint)
    → All IsWritten ws
    → All IsIgnored rest
    → parse before_item hints (scan [] (string_of ws rest)) ≡ accept (hints ++ hints_of ws)
unfolding parse scan flush
parse-Written [] rest hints h clean =
    let nothing : scan [] rest ≡ [] =
      ap (scan []) (sym (append-nil rest)) ∙ scan-ignored rest [] clean in
    ap (parse before_item hints) nothing ∙ ap accept (sym (append-nil hints))
parse-Written (w ∷ ws) rest hints (hw, h) clean =
    ap (parse before_item hints) (scan-Written w (string_of ws rest) hw)
    ∙ parse-Written ws rest (hints ++ w.hint ∷ []) h clean
    ∙ ap accept (append_assoc hints (w.hint ∷ []) (hints_of ws))

-- Hints whose names and contents are of letters and digits, in a string with any other characters but
-- parentheses in front of them, between their parts and behind them: hint_parser returns these hints,
-- in order.
pub hint_parser_roundtrip :
    (w : Written) (ws : List Written) (rest : Bytes)
    → All IsWritten (w ∷ ws)
    → All IsIgnored rest
    → hint_parser (string_of (w ∷ ws) rest) ≡ ok (hints_of (w ∷ ws))
unfolding hint_parser accept
hint_parser_roundtrip w ws rest h clean = parse-Written (w ∷ ws) rest [] h clean
