-- ===== src/DecoderRaw/Dispatch.antt =====
-- decoder_raw/decoder_raw.c: the calls that decoder_raw_change and decoder_raw_truncate make.
use pg_plugins.Base.{
  ℕ, ◌≡◌, refl, sym, ap, ◌∙◌, Bool, true, false, not, Option, none, some, List, [], ◌∷◌, ◌++◌,
  Bytes, codes, arith, map, if◌then◌else◌,
}
use pg_plugins.Base.Memory.{◌>>=◌}
use pg_plugins.Base.Join.{join}
use pg_plugins.DecoderRaw.Types.{
  Backend, Relation, HeapTuple, ChangeAction, change_insert, change_update, change_delete,
  change_truncate, change_other, Change, Event, switch_to, reset, DecoderRawData,
}
use pg_plugins.DecoderRaw.Print.{print_relname}
use pg_plugins.DecoderRaw.Columns.{joined, joined-separator}
use pg_plugins.DecoderRaw.Statements.{decoder_raw_insert, decoder_raw_update, decoder_raw_delete}
use pg_plugins.DecoderRaw.Callbacks.{
  written, is_non_selective, decode_change, decoder_raw_change, truncate_names,
  decoder_raw_truncate, flag, in_context,
}

module _ {Datum : Type 0} (be : Backend Datum) where
  -- An INSERT with its tuple, or an UPDATE or DELETE of a relation whose rows can be told apart.
  abbrev pub is_decoded : Relation → Change Datum → Bool
  is_decoded rel change = elim change.action [
    | change_insert ↦ elim change.newtuple [ none ↦ false | some _ ↦ true ]
    | change_update ↦ not (is_non_selective rel)
    | change_delete ↦ not (is_non_selective rel)
    | change_truncate ↦ false
    | change_other ↦ false
  ]

  abbrev Written : Relation → Change Datum → Bytes → List Event → Type 0
  Written rel change text events = events ≡ (if is_decoded rel change then written text else [])

  decode_change_lem :
      (rel : Relation) (change : Change Datum) (events : List Event)
      → decode_change be rel change change.action ≡ some events
      → (text : Bytes) × Written rel change text events
  unfolding decode_change
  decode_change_lem rel change events e = go change.action refl
    where
      selective :
          (o : Option Bytes) (b : Bool)
          → (do if b then some [] else do text ← o; some (written text)) ≡ some events
          → (text : Bytes) × (events ≡ (if not b then written text else []))
      selective o true e' = ([], ground arith)
      selective none false e' = absurd (ground arith)
      selective (some text) false e' = (text, ground arith)

      inserted :
          (t : Option (HeapTuple Datum))
          → change.newtuple ≡ t
          → change.action ≡ change_insert
          → (text : Bytes) × Written rel change text events
      inserted none e' same = ([], ground arith)
      inserted (some tuple) e' same = (decoder_raw_insert be rel tuple, ground arith)

      go : (a : ChangeAction) → change.action ≡ a → (text : Bytes) × Written rel change text events
      go change_insert same = inserted change.newtuple refl same
      go change_update same = rw same (
          selective (decoder_raw_update be rel change.oldtuple change.newtuple)
            (is_non_selective rel) (ap (decode_change be rel change) (sym same) ∙ e))
      go change_delete same = rw same (
          selective (decoder_raw_delete be rel change.oldtuple) (is_non_selective rel)
            (ap (decode_change be rel change) (sym same) ∙ e))
      go change_truncate same = ([], ground arith)
      go change_other same = ([], ground arith)

  -- A change that returns writes one statement where it is decoded, and nothing otherwise; in
  -- both cases the work is done in the plugin's memory context, the caller's context is current
  -- again behind it, and then the plugin's context is reset.
  change_lem :
      (d : DecoderRawData) (old : ℕ) (rel : Relation) (change : Change Datum) (events : List Event)
      → decoder_raw_change be d old rel change ≡ some events
      → (text : Bytes) × (events
          ≡ switch_to d.context
            ∷ ((if is_decoded rel change then written text else [])
                ++ (switch_to old ∷ reset d.context ∷ [])))
  unfolding decoder_raw_change
  change_lem d old rel change events e = go (decode_change be rel change change.action) refl
    where
      go :
          (o : Option (List Event))
          → decode_change be rel change change.action ≡ o
          → (text : Bytes) × (events
              ≡ switch_to d.context
                ∷ ((if is_decoded rel change then written text else [])
                    ++ (switch_to old ∷ reset d.context ∷ [])))
      go none e' = absurd (ground arith)
      go (some body) e' =
          let (text, w) = decode_change_lem rel change body e' in (text, rw⁻¹ w (ground arith))

  truncate_names_lem :
      (rels : List Relation) (first : Bool)
      → truncate_names be rels first ≡ joined first (codes ", ") (map (print_relname be) rels)
  unfolding truncate_names
  truncate_names_lem [] true = refl
  truncate_names_lem [] false = refl
  truncate_names_lem (rel ∷ rels) first = rw (truncate_names_lem rels false, joined-separator)

  -- For a truncation the callback writes one statement with the names of all the relations, joined
  -- by commas, and the options that were given, in the plugin's memory context, which is reset
  -- behind it.
  pub truncate_statement :
      (d : DecoderRawData) (old : ℕ) (rels : List Relation) (change : Change Datum)
      → change.action ≡ change_truncate
      → decoder_raw_truncate be d old rels change
        ≡ in_context d old (
            written (
              codes "TRUNCATE "
              ++ (join (codes ", ") (map (print_relname be) rels)
                  ++ (flag change.restart_seqs (codes " RESTART IDENTITY")
                      ++ (flag change.cascade (codes " CASCADE") ++ codes ";")))))
  unfolding decoder_raw_truncate
  truncate_statement d old rels change e = rw (e, truncate_names_lem rels true)
