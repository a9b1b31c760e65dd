-- ===== src/DecoderRaw/Statements.antt =====
-- decoder_raw/decoder_raw.c: decoder_raw_insert, decoder_raw_update and decoder_raw_delete. A function
-- returns the text that it appends to its StringInfo.
use pg_plugins.Base.{
  ℕ, suc, Bool, true, false, ◌&&◌, Option, none, some, List, [], ◌∷◌, ◌++◌, Bytes, codes,
  if◌then◌else◌,
}
use pg_plugins.Base.Memory.{◌>>=◌}
use pg_plugins.DecoderRaw.Types.{TypeOid, Backend, Attribute, Relation, HeapTuple}
use pg_plugins.DecoderRaw.Print.{
  is_skipped, separator, print_relname, print_value, equation, print_where_clause,
}

module _ {Datum : Type 0} (be : Backend Datum) where
  -- The loop on the attributes from the number `natt` on: the names, and the values.
  unfoldable pub insert_columns : List Attribute → ℕ → HeapTuple Datum → Bool → Bytes × Bytes
  insert_columns [] natt tuple first_column = ([], [])
  insert_columns (attr ∷ attrs) natt tuple first_column =
      if is_skipped attr
      then insert_columns attrs (suc natt) tuple first_column
      else (let (names, values) = insert_columns attrs (suc natt) tuple false in
          (
            separator first_column (codes ", ") ++ (be.quote_identifier attr.attname ++ names),
            separator first_column (codes ", ")
                ++ (print_value be attr.atttypid (tuple natt) ++ values),
          ))

  unfoldable pub decoder_raw_insert : Relation → HeapTuple Datum → Bytes
  decoder_raw_insert relation tuple =
      let (names, values) = insert_columns relation.attrs 1 tuple true in
      codes "INSERT INTO "
      ++ (print_relname be relation
          ++ (codes " (" ++ (names ++ (codes ") VALUES (" ++ (values ++ codes ");")))))

  unfoldable pub decoder_raw_delete : Relation → Option (HeapTuple Datum) → Option Bytes
  decoder_raw_delete relation tuple = do
    where_clause ← print_where_clause be relation tuple tuple
    some (codes "DELETE FROM " ++ (print_relname be relation ++ (where_clause ++ codes ";")))

  -- "TOASTed datum, but it is not changed"
  abbrev pub is_unchanged_toast : TypeOid → Option Datum → Bool
  is_unchanged_toast typid none = false
  is_unchanged_toast typid (some origval) = be.typisvarlena typid && be.is_external_ondisk origval

  -- The loop of the SET clause.
  unfoldable pub set_columns : List Attribute → ℕ → HeapTuple Datum → Bool → Bytes
  set_columns [] natt newtuple first_column = []
  set_columns (attr ∷ attrs) natt newtuple first_column =
      let same = set_columns attrs (suc natt) newtuple first_column in
      if is_skipped attr
      then same
      else if is_unchanged_toast attr.atttypid (newtuple natt)
      then same
      else separator first_column (codes ", ")
        ++ (equation be attr newtuple natt ++ set_columns attrs (suc natt) newtuple false)

  unfoldable pub decoder_raw_update :
      Relation → Option (HeapTuple Datum) → Option (HeapTuple Datum) → Option Bytes
  decoder_raw_update relation oldtuple none = some []
  decoder_raw_update relation oldtuple (some newtuple) = do
    where_clause ← print_where_clause be relation oldtuple (some newtuple)
    some (
        codes "UPDATE "
        ++ (print_relname be relation
            ++ (codes " SET "
                ++ (set_columns relation.attrs 1 newtuple true ++ (where_clause ++ codes ";")))))
