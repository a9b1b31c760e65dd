-- ===== src/Replication/Transaction.antt =====
-- decoder_raw/decoder_raw.c on one transaction: the statements that its callbacks write.
use pg_plugins.Base.{
  ℕ, ◌≡◌, ◌⊎◌, inl, inr, refl, sym, ap, ◌∙◌, Bool, true, false, Option, none, some, List, [], ◌∷◌,
  ◌++◌, Bytes, codes, map, arith, if◌then◌else◌, Option-cases, append-nil,
}
use mathlib.Core.Path.{subst}
use pg_plugins.Base.Memory.{◌>>=◌}
use pg_plugins.DecoderRaw.Types.{
  Backend, Relation, HeapTuple, ChangeAction, change_insert, change_update, change_delete,
  change_truncate, change_other, Change, Event, prepare_write, write, append, switch_to, reset,
  delete_context, DecoderRawData,
}
use pg_plugins.DecoderRaw.Statements.{decoder_raw_insert, decoder_raw_update, decoder_raw_delete}
use pg_plugins.DecoderRaw.Callbacks.{
  written, is_non_selective, decode_change, decoder_raw_change, decoder_raw_begin_txn,
  decoder_raw_truncate, decoder_raw_commit_txn, in_context,
}
use pg_plugins.DecoderRaw.Dispatch.{is_decoded, truncate_statement}
use pg_plugins.DecoderRaw.Print.{print_relname}
use pg_plugins.Base.Join.{join}

-- The texts written, among the events of the plugin; each write has one.
abbrev pub texts : List Event → List Bytes
texts [] = []
texts (append text ∷ events) = text ∷ texts events
texts (prepare_write _ ∷ events) = texts events
texts (write _ ∷ events) = texts events
texts (switch_to _ ∷ events) = texts events
texts (reset _ ∷ events) = texts events
texts (delete_context _ ∷ events) = texts events

pub texts-append : (a b : List Event) → texts (a ++ b) ≡ texts a ++ texts b
texts-append [] b = refl
texts-append (append text ∷ a) b = ap (λ ts. text ∷ ts) (texts-append a b)
texts-append (prepare_write _ ∷ a) b = texts-append a b
texts-append (write _ ∷ a) b = texts-append a b
texts-append (switch_to _ ∷ a) b = texts-append a b
texts-append (reset _ ∷ a) b = texts-append a b
texts-append (delete_context _ ∷ a) b = texts-append a b

texts-in_context :
    (d : DecoderRawData) (old : ℕ) (events : List Event)
    → texts (in_context d old events) ≡ texts events
texts-in_context d old events = texts-append events _ ∙ append-nil (texts events)

-- What the server hands to a callback: a change of a row, with its relation, or a truncation of
-- relations, with its options.
pub data Item (Datum : Type 0) : Type 0 where
  row_change : Relation → Change Datum → Item Datum
  truncation : (rels : List Relation) (restart_seqs cascade : Bool) → Item Datum

-- The change that stands for a truncation.
abbrev pub truncate_change : {Datum : Type 0} (restart_seqs cascade : Bool) → Change Datum
truncate_change restart_seqs cascade = record {
  action = change_truncate;
  oldtuple = none;
  newtuple = none;
  restart_seqs = restart_seqs;
  cascade = cascade;
}

module _ {Datum : Type 0} (be : Backend Datum) where
  -- The callback of a row change, or that of a truncation. `old` is the memory context of the server.
  unfoldable pub decode_item : DecoderRawData → (old : ℕ) → Item Datum → Option (List Event)
  decode_item d old (row_change rel change) = decoder_raw_change be d old rel change
  decode_item d old (truncation rels restart_seqs cascade) =
      some (decoder_raw_truncate be d old rels (truncate_change restart_seqs cascade))

  -- The callbacks that the server calls for a transaction, in order: the beginning, each change, and
  -- the commit.
  unfoldable pub decode_changes :
      DecoderRawData → (old : ℕ) → List (Item Datum) → Option (List Event)
  unfolding decode_item
  decode_changes d old [] = some []
  decode_changes d old (item ∷ changes) = do
    events ← decode_item d old item
    rest ← decode_changes d old changes
    some (events ++ rest)

  unfoldable pub decode_transaction :
      DecoderRawData → (old : ℕ) → List (Item Datum) → Option (List Event)
  unfolding decode_changes
  decode_transaction d old changes = do
    events ← decode_changes d old changes
    some (decoder_raw_begin_txn d ++ (events ++ decoder_raw_commit_txn d))

  -- The text is the statement of the change.
  abbrev pub IsStatement : ChangeAction → Relation → Change Datum → Bytes → Type 0
  IsStatement change_insert rel change text =
      (t : HeapTuple Datum) × (change.newtuple ≡ some t) × (text ≡ decoder_raw_insert be rel t)
  IsStatement change_update rel change text =
      decoder_raw_update be rel change.oldtuple change.newtuple ≡ some text
  IsStatement change_delete rel change text = decoder_raw_delete be rel change.oldtuple ≡ some text
  IsStatement change_truncate rel change text = ⊥
  IsStatement change_other rel change text = ⊥

  -- The TRUNCATE statement of some relations.
  abbrev pub truncate_text : (rels : List Relation) (restart_seqs cascade : Bool) → Bytes
  truncate_text rels restart_seqs cascade =
      codes "TRUNCATE "
      ++ (join (codes ", ") (map (print_relname be) rels)
          ++ ((if restart_seqs then codes " RESTART IDENTITY" else [])
              ++ ((if cascade then codes " CASCADE" else []) ++ codes ";")))

  -- The statements of some changes, in order: one for each that is decoded, truncations included, none
  -- for the others.
  pub data Statements : List (Item Datum) → List Bytes → Type 0 where
    no_changes : Statements [] []
    skipped :
        {changes : List (Item Datum)} {ts : List Bytes} (rel : Relation) (change : Change Datum)
        → is_decoded be rel change ≡ false
        → Statements changes ts
        → Statements (row_change rel change ∷ changes) ts
    decoded :
        {changes : List (Item Datum)} {ts : List Bytes} (rel : Relation) (change : Change Datum)
        (text : Bytes)
        → is_decoded be rel change ≡ true
        → IsStatement change.action rel change text
        → Statements changes ts
        → Statements (row_change rel change ∷ changes) (text ∷ ts)
    truncated :
        {changes : List (Item Datum)} {ts : List Bytes} (rels : List Relation)
        (restart_seqs cascade : Bool)
        → Statements changes ts
        → Statements
            (truncation rels restart_seqs cascade ∷ changes)
            (truncate_text rels restart_seqs cascade ∷ ts)

  Decoding : Relation → Change Datum → List Event → Type 0
  Decoding rel change events =
      ((is_decoded be rel change ≡ false) × (texts events ≡ []))
      ⊎ ((text : Bytes) × (is_decoded be rel change ≡ true)
          × IsStatement change.action rel change text
          × (texts events ≡ text ∷ []))

  selective :
      (o : Option Bytes) (b : Bool) (events : List Event)
      → (do if b then some [] else do text ← o; some (written text)) ≡ some events
      → ((b ≡ true) × (texts events ≡ []))
        ⊎ ((text : Bytes) × (b ≡ false) × (o ≡ some text) × (texts events ≡ text ∷ []))
  selective o true events e = inl (refl, ground arith)
  selective none false events e = absurd (ground arith)
  selective (some text) false events e = inr (text, refl, refl, ground arith)

  change_statement :
      (rel : Relation) (change : Change Datum) (a : ChangeAction) (events : List Event)
      → change.action ≡ a
      → decode_change be rel change a ≡ some events
      → Decoding rel change events
  unfolding decode_change Decoding
  change_statement rel change change_insert events same e = elim (Option-cases change.newtuple) [
    | inl missing ↦ inl (rw (same, missing) refl, ground arith)
    | inr (t, found) ↦
        inr (
          decoder_raw_insert be rel t,
          rw (same, found) refl,
          rw same (t, found, refl),
          ground arith,
        )
  ]
  change_statement rel change change_update events same e =
      elim (selective (decoder_raw_update be rel change.oldtuple change.newtuple)
        (is_non_selective rel) events e) [
          | inl (skips, nothing) ↦ inl (rw (same, skips) refl, nothing)
          | inr (text, takes, found, one) ↦ inr (text, rw (same, takes) refl, rw same found, one)
        ]
  change_statement rel change change_delete events same e =
      elim (selective (decoder_raw_delete be rel change.oldtuple) (is_non_selective rel) events e) [
        | inl (skips, nothing) ↦ inl (rw (same, skips) refl, nothing)
        | inr (text, takes, found, one) ↦ inr (text, rw (same, takes) refl, rw same found, one)
      ]
  change_statement rel change change_truncate events same e = inl (rw same refl, ground arith)
  change_statement rel change change_other events same e = inl (rw same refl, ground arith)

  decoder_raw_change_lem :
      (d : DecoderRawData) (old : ℕ) (rel : Relation) (change : Change Datum) (events : List Event)
      → decoder_raw_change be d old rel change ≡ some events
      → (body : List Event) × (decode_change be rel change change.action ≡ some body)
        × (texts events ≡ texts body)
  unfolding decoder_raw_change
  decoder_raw_change_lem d old rel change events e =
      elim (Option-cases (decode_change be rel change change.action)) [
        | inl missing ↦ absurd (ground arith)
        | inr (body, found) ↦
            let same : in_context d old body ≡ events = ground arith in
            (body, found, ap texts (sym same) ∙ texts-in_context d old body)
      ]

  one_more :
      (rel : Relation) (change : Change Datum) (changes : List (Item Datum))
      (body events rest : List Event)
      → texts events ≡ texts body
      → Decoding rel change body
      → Statements changes (texts rest)
      → Statements (row_change rel change ∷ changes) (texts (events ++ rest))
  unfolding Decoding
  one_more rel change changes body events rest same (inl (skips, nothing)) later =
      subst (Statements (row_change rel change ∷ changes))
        (sym (texts-append events rest ∙ ap (λ ts. ts ++ texts rest) (same ∙ nothing)))
        (skipped rel change skips later)
  one_more rel change changes body events rest same (inr (text, takes, statement, one)) later =
      subst (Statements (row_change rel change ∷ changes))
        (sym (texts-append events rest ∙ ap (λ ts. ts ++ texts rest) (same ∙ one)))
        (decoded rel change text takes statement later)

  truncation_texts :
      (d : DecoderRawData) (old : ℕ) (rels : List Relation) (restart_seqs cascade : Bool)
      → texts (decoder_raw_truncate be d old rels (truncate_change restart_seqs cascade))
        ≡ truncate_text rels restart_seqs cascade ∷ []
  truncation_texts d old rels restart_seqs cascade =
      ap texts (truncate_statement be d old rels (truncate_change restart_seqs cascade) refl)
      ∙ texts-in_context d old (written (truncate_text rels restart_seqs cascade))

  item_statements :
      (d : DecoderRawData) (old : ℕ) (item : Item Datum) (changes : List (Item Datum))
      (now rest : List Event)
      → decode_item d old item ≡ some now
      → Statements changes (texts rest)
      → Statements (item ∷ changes) (texts (now ++ rest))
  unfolding decode_item
  item_statements d old (row_change rel change) changes now rest found later =
      let (body, decoding, same) = decoder_raw_change_lem d old rel change now found in
      one_more rel change changes body now rest same
        (change_statement rel change change.action body refl decoding) later
  item_statements d old (truncation rels restart_seqs cascade) changes now rest found later =
      let same : decoder_raw_truncate be d old rels (truncate_change restart_seqs cascade) ≡ now =
        ground arith in
      subst (Statements (truncation rels restart_seqs cascade ∷ changes))
        (sym (
          texts-append now rest
          ∙ ap (λ ts. ts ++ texts rest)
              (ap texts (sym same) ∙ truncation_texts d old rels restart_seqs cascade)))
        (truncated rels restart_seqs cascade later)

  pub decode_changes-Statements :
      (d : DecoderRawData) (old : ℕ) (changes : List (Item Datum)) (events : List Event)
      → decode_changes d old changes ≡ some events
      → Statements changes (texts events)
  unfolding decode_changes
  decode_changes-Statements d old [] events e =
      let empty : [] ≡ events = ground arith in
      subst (λ all. Statements [] (texts all)) empty no_changes
  decode_changes-Statements d old (item ∷ changes) events e =
      elim (Option-cases (decode_item d old item)) [
        | inl missing ↦ absurd (ground arith)
        | inr (now, found) ↦ elim (Option-cases (decode_changes d old changes)) [
          | inl missing ↦ absurd (ground arith)
          | inr (rest, later) ↦
              let whole : now ++ rest ≡ events = ground arith in
              subst (λ all. Statements (item ∷ changes) (texts all)) whole
                (item_statements d old item changes now rest found
                  (decode_changes-Statements d old changes rest later))
        ]
      ]

  -- Without include_transaction the plugin writes the statements of the changes and nothing else.
  pub decode_transaction-Statements :
      (d : DecoderRawData) (old : ℕ) (changes : List (Item Datum)) (events : List Event)
      → d.include_transaction ≡ false
      → decode_transaction d old changes ≡ some events
      → Statements changes (texts events)
  unfolding decode_transaction decoder_raw_begin_txn decoder_raw_commit_txn
  decode_transaction-Statements d old changes events off e =
      elim (Option-cases (decode_changes d old changes)) [
        | inl missing ↦ absurd (ground arith)
        | inr (body, found) ↦
            let whole : body ≡ events = ground (arith, append-nil body) in
            subst (λ all. Statements changes (texts all)) whole
              (decode_changes-Statements d old changes body found)
      ]
