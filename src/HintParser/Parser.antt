-- ===== src/HintParser/Parser.antt =====
-- hint_parser/hint_gram.y and hint_parser/hint_parser.c: the automaton of the grammar, and the SQL
-- function.
use pg_plugins.Base.{List, [], ◌∷◌, ◌++◌, Bytes, codes}
use pg_plugins.Base.Result.{Result, ok, err}
use pg_plugins.HintParser.Scanner.{Token, name, opening, closing, scan}

-- HintConfigData.
pub record Hint : Type 0 where
  pub name : Bytes
  pub contents : Bytes

-- The message of hint_yyerror, with the text of the token that cannot be read.
pub data SyntaxError : Type 0 where
  at_or_near : (yytext : Bytes) → SyntaxError
  at_end_of_input : SyntaxError

-- The text of a token.
abbrev pub yytext : Token → Bytes
yytext (name text) = text
yytext opening = codes "("
yytext closing = codes ")"

-- Where the parser stands behind the hints read: in front of a hint, behind its name, behind the
-- parenthesis, or behind its contents.
pub data Place : Type 0 where
  before_item : Place
  named opened : (hint_name : Bytes) → Place
  filled : (hint_name hint_content : Bytes) → Place

-- The end of the tokens: a list of hints has one at least.
unfoldable pub accept : List Hint → Result SyntaxError (List Hint)
accept [] = err at_end_of_input
accept (hint ∷ hints) = ok (hint ∷ hints)

unfoldable pub parse : Place → List Hint → List Token → Result SyntaxError (List Hint)
unfolding accept
parse before_item hints [] = accept hints
parse before_item hints (name n ∷ tokens) = parse (named n) hints tokens
parse (named n) hints (opening ∷ tokens) = parse (opened n) hints tokens
parse (opened n) hints (name c ∷ tokens) = parse (filled n c) hints tokens
parse (filled n c) hints (closing ∷ tokens) =
    parse before_item (hints ++ record { name = n; contents = c } ∷ []) tokens
parse place hints [] = err at_end_of_input
parse place hints (token ∷ tokens) = err (at_or_near (yytext token))

-- The rows, or the error of the parser.
unfoldable pub hint_parser : Bytes → Result SyntaxError (List Hint)
unfolding parse scan
hint_parser string = parse before_item [] (scan [] string)
