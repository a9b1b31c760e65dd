-- ===== src/DecoderRaw/Types.antt =====
-- decoder_raw/decoder_raw.c: what the plugin reads of the server, and what it does to its output.
use pg_plugins.Base.{ℕ, Bool, Option, List, Bytes}
use pg_plugins.Base.Int.{ℤ}

-- The type OIDs of print_literal, and the others by their number.
pub data TypeOid : Type 0 where
  bool_oid int2_oid int4_oid int8_oid oid_oid : TypeOid
  float4_oid float8_oid numeric_oid bit_oid varbit_oid : TypeOid
  other_oid : ℕ → TypeOid

-- The calls of the server. `output` is OidOutputFunctionCall of the type's output function.
pub record Backend (Datum : Type 0) : Type 0 where
  pub typisvarlena : TypeOid → Bool
  pub is_external_ondisk : Datum → Bool
  pub detoast : Datum → Datum
  pub output : TypeOid → Datum → Bytes
  pub sql_str_double : ℕ → Bool → Bool
  pub quote_identifier : Bytes → Bytes
  pub quote_qualified_identifier : Bytes → Bytes → Bytes
  pub namespace_name : ℕ → Bytes
  pub parse_bool : Bytes → Option Bool

-- The fields of Form_pg_attribute that the plugin reads.
pub record Attribute : Type 0 where
  pub attname : Bytes
  pub atttypid : TypeOid
  pub attisdropped : Bool
  pub attnum : ℤ

pub data ReplicaIdentity : Type 0 where
  identity_default identity_nothing identity_full identity_index : ReplicaIdentity

-- `replidindex` has the key columns of the index rd_replidindex, none where its OID is invalid.
pub record Relation : Type 0 where
  pub relid : ℕ
  pub relname : Bytes
  pub relreplident : ReplicaIdentity
  pub replidindex : Option (List ℕ)
  pub attrs : List Attribute

-- A tuple as heap_getattr reads it: the value of an attribute number, none for SQL null.
abbrev pub HeapTuple : Type 0 → Type 0
HeapTuple Datum = ℕ → Option Datum

pub data ChangeAction : Type 0 where
  change_insert change_update change_delete change_truncate change_other : ChangeAction

-- A pointer to a tuple that may be NULL is an Option.
pub record Change (Datum : Type 0) : Type 0 where
  pub action : ChangeAction
  pub oldtuple : Option (HeapTuple Datum)
  pub newtuple : Option (HeapTuple Datum)
  pub restart_seqs : Bool
  pub cascade : Bool

-- What a callback does, in order: OutputPluginPrepareWrite and OutputPluginWrite with their flag
-- `last_write`, the text appended to `ctx->out` between them, and the calls on memory contexts,
-- which are named by numbers.
pub data Event : Type 0 where
  prepare_write write : Bool → Event
  append : Bytes → Event
  switch_to reset delete_context : ℕ → Event

pub data OutputType : Type 0 where
  textual_output binary_output : OutputType

pub record DecoderRawData : Type 0 where
  pub context : ℕ
  pub include_transaction : Bool
