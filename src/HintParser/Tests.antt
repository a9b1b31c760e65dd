-- ===== src/HintParser/Tests.antt =====
-- Hints in concrete strings.
use pg_plugins.Base.{◌≡◌, ◌↔◌, refl, [], ◌∷◌, codes, arith}
use pg_plugins.Base.Result.{ok, err}
use pg_plugins.HintParser.Scanner.{name, opening, closing, is_name_char, flush, scan}
use pg_plugins.HintParser.Parser.{Hint, accept, parse, hint_parser, at_or_near, at_end_of_input}
use pg_plugins.HintParser.Grammar.{HintList, hint_parser-HintList}
use pg_plugins.HintParser.Printed.{Written, IsWritten, hint_parser_roundtrip}

abbrev hint : Hint
hint = record { name = codes "Seq"; contents = codes "t1" }

abbrev written : Written
written = record {
  hint = hint;
  front = codes " /";
  behind_name = [];
  behind_opening = codes " ";
  behind_contents = codes "*";
}

written-IsWritten : IsWritten written
unfolding is_name_char
written-IsWritten = (
  ((λ e. ground arith), (refl, (refl, (refl, tt)))),
  ((λ e. ground arith), (refl, (refl, tt))),
  ((refl, refl, refl), ((refl, refl, refl), tt)),
  tt,
  ((refl, refl, refl), tt),
  ((refl, refl, refl), tt),
)

hint_parser_roundtrip_example :
    hint_parser (codes " /Seq( t1*) /Seq( t1*)+") ≡ ok (hint ∷ hint ∷ [])
unfolding is_name_char
hint_parser_roundtrip_example =
    hint_parser_roundtrip written (written ∷ []) (codes "+")
      (written-IsWritten, (written-IsWritten, tt)) ((refl, refl, refl), tt)

hint_parser-HintList_example :
    (hint_parser (codes "Seq(t1)") ≡ ok (hint ∷ []))
    ↔ HintList (name (codes "Seq") ∷ opening ∷ name (codes "t1") ∷ closing ∷ []) (hint ∷ [])
unfolding scan flush is_name_char
hint_parser-HintList_example = hint_parser-HintList (codes "Seq(t1)") (hint ∷ [])

refused_test :
    (hint_parser (codes "Seq(t1") ≡ err at_end_of_input)
    × (hint_parser [] ≡ err at_end_of_input)
    × (hint_parser (codes "Seq(t1 t2)") ≡ err (at_or_near (codes "t2")))
    × (hint_parser (codes "(t1)") ≡ err (at_or_near (codes "(")))
    × (hint_parser (codes "Seq_Scan(t1)") ≡ err (at_or_near (codes "Scan")))
unfolding hint_parser parse accept scan flush is_name_char
refused_test = (refl, refl, refl, refl, refl)
