-- ===== src/HintParser/Grammar.antt =====
-- hint_parser/hint_gram.y: the parser accepts the grammar.
use pg_plugins.Base.{
  ◌≡◌, ◌↔◌, ◌⊎◌, inl, inr, refl, sym, ap, ◌∙◌, List, [], ◌∷◌, ◌++◌, append_assoc, append-nil, Bytes,
  arith,
}
use mathlib.Core.Path.{subst}
use pg_plugins.Base.Result.{ok}
use pg_plugins.HintParser.Scanner.{Token, name, opening, closing, scan}
use pg_plugins.HintParser.Parser.{
  Hint, Place, before_item, named, opened, filled, accept, parse, hint_parser,
}

-- hint_item: hint_name '(' hint_content ')'
abbrev pub hint_item : Hint → List Token
hint_item hint = name hint.name ∷ opening ∷ name hint.contents ∷ closing ∷ []

-- hint_list: hint_item | hint_list hint_item
pub data HintList : List Token → List Hint → Type 0 where
  first_item : (hint : Hint) → HintList (hint_item hint) (hint ∷ [])
  next_item :
      {tokens : List Token} {hints : List Hint}
      → HintList tokens hints
      → (hint : Hint) → HintList (tokens ++ hint_item hint) (hints ++ hint ∷ [])

accept-HintList :
    {tokens : List Token} {hints : List Hint} → HintList tokens hints → accept hints ≡ ok hints
unfolding accept
accept-HintList (first_item hint) = refl
accept-HintList (next_item {hints = hints} l hint) = go hints
  where
    go : (hs : List Hint) → accept (hs ++ hint ∷ []) ≡ ok (hs ++ hint ∷ [])
    go [] = refl
    go (h ∷ hs) = refl

-- The parser behind a list of hints.
parse-HintList :
    {tokens : List Token} {hints : List Hint} (rest : List Token)
    → HintList tokens hints
    → parse before_item [] (tokens ++ rest) ≡ parse before_item hints rest
unfolding parse
parse-HintList rest (first_item hint) = refl
parse-HintList rest (next_item {tokens} {hints} l hint) =
    ap (parse before_item []) (append_assoc tokens (hint_item hint) rest)
    ∙ parse-HintList (hint_item hint ++ rest) l

-- Some hints that have been read, none included.
abbrev AreRead : List Hint → List Token → Type 0
AreRead hints tokens = ((tokens ≡ []) × (hints ≡ [])) ⊎ HintList tokens hints

-- The tokens of an item in front of a place.
abbrev pending : Place → List Token
pending before_item = []
pending (named n) = name n ∷ []
pending (opened n) = name n ∷ opening ∷ []
pending (filled n c) = name n ∷ opening ∷ name c ∷ []

-- What has been read, where the parser stands behind some hints.
abbrev Read : Place → List Hint → List Token → Type 0
Read place hints tokens = (q : List Token) × AreRead hints q × (tokens ≡ q ++ pending place)

AreRead-item :
    (n c : Bytes) (hints : List Hint) (q : List Token)
    → AreRead hints q
    → HintList
        (q ++ hint_item (record { name = n; contents = c }))
        (hints ++ record { name = n; contents = c } ∷ [])
AreRead-item n c hints q (inl (no_tokens, no_hints)) = rw (no_tokens, no_hints) (first_item _)
AreRead-item n c hints q (inr l) = next_item l _

one_more :
    (before q ts us : List Token) (token : Token)
    → before ≡ q ++ ts
    → ts ++ token ∷ [] ≡ us
    → before ++ token ∷ [] ≡ q ++ us
one_more before q ts us token at more =
    ap (λ b. b ++ token ∷ []) at ∙ append_assoc q ts (token ∷ []) ∙ ap (λ x. q ++ x) more

parse-end :
    (hints all : List Hint) (before : List Token)
    → Read before_item hints before
    → accept hints ≡ ok all
    → HintList (before ++ []) all
unfolding accept
parse-end hints all before (q, inl (no_tokens, no_hints), at) e = absurd (ground arith)
parse-end hints all before (q, inr l, at) e =
    let same : hints ≡ all = ground (arith, accept-HintList l) in
    let whole : q ≡ before ++ [] = sym (append-nil before ∙ at ∙ append-nil q) in
    rw⁻¹ (same, whole) l

-- The parser accepts nothing but what is read already, with the tokens behind it.
parse_sound :
    (place : Place) (hints : List Hint) (before tokens : List Token) (all : List Hint)
    → Read place hints before
    → parse place hints tokens ≡ ok all
    → HintList (before ++ tokens) all
unfolding parse
parse_sound before_item hints before [] all r e = parse-end hints all before r e
parse_sound before_item hints before (name n ∷ tokens) all (q, r, at) e =
    subst (λ ts. HintList ts all) (append_assoc before (name n ∷ []) tokens)
      (parse_sound (named n) hints (before ++ name n ∷ []) tokens all
        (q, r, one_more before q [] _ (name n) at refl) e)
parse_sound before_item hints before (opening ∷ tokens) all r e = absurd (ground arith)
parse_sound before_item hints before (closing ∷ tokens) all r e = absurd (ground arith)
parse_sound (named n) hints before [] all r e = absurd (ground arith)
parse_sound (named n) hints before (name _ ∷ tokens) all r e = absurd (ground arith)
parse_sound (named n) hints before (opening ∷ tokens) all (q, r, at) e =
    subst (λ ts. HintList ts all) (append_assoc before (opening ∷ []) tokens)
      (parse_sound (opened n) hints (before ++ opening ∷ []) tokens all
        (q, r, one_more before q (pending (named n)) _ opening at refl) e)
parse_sound (named n) hints before (closing ∷ tokens) all r e = absurd (ground arith)
parse_sound (opened n) hints before [] all r e = absurd (ground arith)
parse_sound (opened n) hints before (name c ∷ tokens) all (q, r, at) e =
    subst (λ ts. HintList ts all) (append_assoc before (name c ∷ []) tokens)
      (parse_sound (filled n c) hints (before ++ name c ∷ []) tokens all
        (q, r, one_more before q (pending (opened n)) _ (name c) at refl) e)
parse_sound (opened n) hints before (opening ∷ tokens) all r e = absurd (ground arith)
parse_sound (opened n) hints before (closing ∷ tokens) all r e = absurd (ground arith)
parse_sound (filled n c) hints before [] all r e = absurd (ground arith)
parse_sound (filled n c) hints before (name _ ∷ tokens) all r e = absurd (ground arith)
parse_sound (filled n c) hints before (opening ∷ tokens) all r e = absurd (ground arith)
parse_sound (filled n c) hints before (closing ∷ tokens) all (q, r, at) e =
    subst (λ ts. HintList ts all) (append_assoc before (closing ∷ []) tokens)
      (parse_sound before_item (hints ++ record { name = n; contents = c } ∷ [])
        (before ++ closing ∷ []) tokens all
        (
          q ++ hint_item (record { name = n; contents = c }),
          inr (AreRead-item n c hints q r),
          one_more before q (pending (filled n c)) _ closing at refl ∙ sym (append-nil _),
        )
        e)

-- hint_parser returns some hints exactly where the tokens of the string are a list of these hints, as
-- the grammar has it.
pub hint_parser-HintList :
    (string : Bytes) (hints : List Hint)
    → (hint_parser string ≡ ok hints) ↔ HintList (scan [] string) hints
unfolding hint_parser
hint_parser-HintList string hints = (
  λ e. parse_sound before_item [] [] (scan [] string) hints ([], inl (refl, refl), refl) e,
  λ l.
      ap (parse before_item []) (sym (append-nil (scan [] string)))
      ∙ parse-HintList [] l
      ∙ accept-HintList l,
)
