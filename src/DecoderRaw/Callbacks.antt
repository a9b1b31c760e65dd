-- ===== src/DecoderRaw/Callbacks.antt =====
-- decoder_raw/decoder_raw.c: the callbacks. Each returns the calls that it makes, in order; a change
-- returns none where it reads outside an object.
use pg_plugins.Base.{
  ℕ, Bool, true, false, Option, none, some, List, [], ◌∷◌, ◌++◌, Bytes, codes, str_eq,
  if◌then◌else◌,
}
use pg_plugins.Base.Result.{Result, ok, err}
use pg_plugins.Base.Memory.{◌>>=◌}
use pg_plugins.DecoderRaw.Types.{
  Backend, identity_default, identity_nothing, identity_full, identity_index, Relation,
  ChangeAction, change_insert, change_update, change_delete, change_truncate, change_other, Change,
  Event, prepare_write, write, append, switch_to, reset, delete_context, OutputType, textual_output,
  binary_output, DecoderRawData,
}
use pg_plugins.DecoderRaw.Print.{separator, print_relname}
use pg_plugins.DecoderRaw.Statements.{decoder_raw_insert, decoder_raw_update, decoder_raw_delete}

-- A DefElem whose argument is a string, or NULL.
pub record DefElem : Type 0 where
  pub defname : Bytes
  pub arg : Option Bytes

pub data StartupError : Type 0 where
  could_not_parse incorrect_value : Bytes → Bytes → StartupError
  no_value : Bytes → StartupError
  unknown_option : Bytes → Option Bytes → StartupError

-- What the startup callback sets: its own data, and the field of `opt`.
pub record Startup : Type 0 where
  pub data_ : DecoderRawData
  pub output_type : OutputType

-- One write of the plugin, to `ctx->out`.
abbrev pub written : Bytes → List Event
written text = prepare_write true ∷ append text ∷ write true ∷ []

abbrev with_include : Startup → Bool → Startup
with_include s v = record s { data_ = record s.data_ { include_transaction = v } }

unfoldable pub decoder_raw_shutdown : DecoderRawData → List Event
decoder_raw_shutdown d = delete_context d.context ∷ []

unfoldable pub decoder_raw_begin_txn : DecoderRawData → List Event
decoder_raw_begin_txn d = if d.include_transaction then written (codes "BEGIN;") else []

unfoldable pub decoder_raw_commit_txn : DecoderRawData → List Event
decoder_raw_commit_txn d = if d.include_transaction then written (codes "COMMIT;") else []

-- The local `is_rel_non_selective`.
unfoldable pub is_non_selective : Relation → Bool
is_non_selective rel = elim rel.relreplident [
  | identity_nothing ↦ true
  | identity_default ↦ elim rel.replidindex [ none ↦ true | some _ ↦ false ]
  | identity_full ↦ false
  | identity_index ↦ false
]

-- The work is done in the plugin's memory context, which is reset behind it. `old` is the
-- context of the caller.
abbrev pub in_context : DecoderRawData → ℕ → List Event → List Event
in_context d old events = switch_to d.context ∷ (events ++ (switch_to old ∷ reset d.context ∷ []))

abbrev pub flag : Bool → Bytes → Bytes
flag b text = if b then text else []

module _ {Datum : Type 0} (be : Backend Datum) where
  unfoldable pub set_include_transaction : Startup → DefElem → Result StartupError Startup
  set_include_transaction s elem = elim elem.arg [
    | none ↦ ok (with_include s true)
    | some value ↦ elim (be.parse_bool value) [
      | none ↦ err (could_not_parse value elem.defname)
      | some v ↦ ok (with_include s v)
    ]
  ]

  unfoldable pub set_output_format : Startup → DefElem → Result StartupError Startup
  set_output_format s elem = elim elem.arg [
    | none ↦ err (no_value elem.defname)
    | some format ↦
        if str_eq format (codes "textual")
        then ok (record s { output_type = textual_output })
        else if str_eq format (codes "binary")
        then ok (record s { output_type = binary_output })
        else err (incorrect_value format elem.defname)
  ]

  -- The body of the loop on the options.
  unfoldable pub set_option : Startup → DefElem → Result StartupError Startup
  unfolding set_include_transaction set_output_format
  set_option s elem =
      if str_eq elem.defname (codes "include_transaction")
      then set_include_transaction s elem
      else if str_eq elem.defname (codes "output_format")
      then set_output_format s elem
      else err (unknown_option elem.defname elem.arg)

  unfoldable pub set_options : Startup → List DefElem → Result StartupError Startup
  set_options s [] = ok s
  set_options s (elem ∷ elems) = elim (set_option s elem) [
    | ok s' ↦ set_options s' elems
    | err e ↦ err e
  ]

  -- `context` is the memory context that AllocSetContextCreate returns.
  unfoldable pub decoder_raw_startup : ℕ → List DefElem → Result StartupError Startup
  decoder_raw_startup context options =
      set_options
        (record {
          data_ = record { context = context; include_transaction = false };
          output_type = textual_output;
        })
        options

  -- The switch on the type of the change.
  unfoldable pub decode_change : Relation → Change Datum → ChangeAction → Option (List Event)
  decode_change rel change change_insert = elim change.newtuple [
    | none ↦ some []
    | some tuple ↦ some (written (decoder_raw_insert be rel tuple))
  ]
  decode_change rel change change_update = do
    let update = decoder_raw_update be rel change.oldtuple change.newtuple
    if is_non_selective rel then some [] else do text ← update; some (written text)
  decode_change rel change change_delete = do
    let deletion = decoder_raw_delete be rel change.oldtuple
    if is_non_selective rel then some [] else do text ← deletion; some (written text)
  decode_change rel change change_truncate = some []
  decode_change rel change change_other = some []

  unfoldable pub decoder_raw_change :
      DecoderRawData → ℕ → Relation → Change Datum → Option (List Event)
  decoder_raw_change d old rel change = do
    events ← decode_change rel change change.action
    some (in_context d old events)

  -- The loop on the relations; `first` is `i == 0`.
  unfoldable pub truncate_names : List Relation → Bool → Bytes
  truncate_names [] first = []
  truncate_names (rel ∷ rels) first =
      separator first (codes ", ") ++ (print_relname be rel ++ truncate_names rels false)

  unfoldable pub decoder_raw_truncate :
      DecoderRawData → ℕ → List Relation → Change Datum → List Event
  decoder_raw_truncate d old rels change = elim change.action [
    | change_truncate ↦ in_context d old (
        written (
          codes "TRUNCATE "
          ++ (truncate_names rels true
              ++ (flag change.restart_seqs (codes " RESTART IDENTITY")
                  ++ (flag change.cascade (codes " CASCADE") ++ codes ";")))))
    | _ ↦ []
  ]
