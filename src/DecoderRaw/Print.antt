-- ===== src/DecoderRaw/Print.antt =====
-- decoder_raw/decoder_raw.c: print_literal, print_relname, print_value and the WHERE clause. A
-- function returns the text that it appends to its StringInfo. Assertions are off.
use pg_plugins.Base.{
  ℕ, zero, suc, Bool, true, false, ◌||◌, ◌&&◌, Option, none, some, List, [], ◌∷◌, ◌++◌, Bytes,
  codes, ◌==◌, str_eq, if◌then◌else◌, get_elem?,
}
use pg_plugins.Base.Int.{is_negative}
use pg_plugins.Base.Memory.{◌>>=◌}
use pg_plugins.DecoderRaw.Types.{
  TypeOid, bool_oid, int2_oid, int4_oid, int8_oid, oid_oid, float4_oid, float8_oid, numeric_oid,
  bit_oid, varbit_oid, other_oid, Backend, Attribute, Relation, HeapTuple,
}

-- The C character of a string: NUL behind its end.
abbrev pub first_char : Bytes → ℕ
first_char [] = 0
first_char (c ∷ _) = c

-- "Skip dropped columns and system columns"
unfoldable pub is_skipped : Attribute → Bool
is_skipped attr = attr.attisdropped || is_negative attr.attnum

-- The separator in front of every item but the first.
unfoldable pub separator : Bool → Bytes → Bytes
separator first_column sep = if first_column then [] else sep

-- TupleDescAttr(tupdesc, natt - 1): none outside the descriptor.
abbrev pub attr_at : Relation → ℕ → Option Attribute
attr_at rel zero = none
attr_at rel (suc i) = get_elem? rel.attrs i

-- The attribute numbers from `natt` on, one for each attribute.
abbrev pub numbers : ℕ → List Attribute → List ℕ
numbers natt [] = []
numbers natt (_ ∷ attrs) = natt ∷ numbers (suc natt) attrs

-- `oldtuple ? oldtuple : newtuple`
abbrev pub or_else {ℓ} : {A : Type ℓ} → Option A → Option A → Option A
or_else none newtuple = newtuple
or_else (some t) newtuple = some t

module _ {Datum : Type 0} (be : Backend Datum) where
  -- The loop of the default case.
  unfoldable pub double_quotes : Bytes → Bytes
  double_quotes [] = []
  double_quotes (ch ∷ s) =
      let rest = double_quotes s in if be.sql_str_double ch false then ch ∷ ch ∷ rest else ch ∷ rest

  unfoldable pub print_float : Bytes → Bytes
  print_float outputstr =
      if str_eq outputstr (codes "NaN")
        || str_eq outputstr (codes "Infinity")
        || str_eq outputstr (codes "-Infinity")
      then b'\'' ∷ (outputstr ++ b'\'' ∷ [])
      else outputstr

  unfoldable pub print_bits : Bytes → Bytes
  print_bits outputstr = codes "B'" ++ (outputstr ++ b'\'' ∷ [])

  unfoldable pub print_literal : TypeOid → Bytes → Bytes
  unfolding print_float print_bits
  print_literal bool_oid outputstr =
      if first_char outputstr == b't' then codes "true" else codes "false"
  print_literal int2_oid outputstr = outputstr
  print_literal int4_oid outputstr = outputstr
  print_literal int8_oid outputstr = outputstr
  print_literal oid_oid outputstr = outputstr
  print_literal float4_oid outputstr = print_float outputstr
  print_literal float8_oid outputstr = print_float outputstr
  print_literal numeric_oid outputstr = print_float outputstr
  print_literal bit_oid outputstr = print_bits outputstr
  print_literal varbit_oid outputstr = print_bits outputstr
  print_literal (other_oid _) outputstr = b'\'' ∷ (double_quotes outputstr ++ b'\'' ∷ [])

  unfoldable pub print_relname : Relation → Bytes
  print_relname rel = be.quote_qualified_identifier (be.namespace_name rel.relid) rel.relname

  unfoldable pub print_value : TypeOid → Option Datum → Bytes
  print_value typid none = codes "null"
  print_value typid (some origval) =
      if be.typisvarlena typid && be.is_external_ondisk origval
      then codes "unchanged-toast-datum"
      else if be.typisvarlena typid
      then print_literal typid (be.output typid (be.detoast origval))
      else print_literal typid (be.output typid origval)

  -- "name = value", by the attribute number of the value.
  unfoldable pub equation : Attribute → HeapTuple Datum → ℕ → Bytes
  equation attr tuple natt =
      be.quote_identifier attr.attname ++ (codes " = " ++ print_value attr.atttypid (tuple natt))

  -- The text, and the new value of `*first_column`. None is a read outside the descriptor or of
  -- a NULL tuple.
  unfoldable pub print_where_clause_item :
      Relation → Option (HeapTuple Datum) → ℕ → Bool → Option (Bytes × Bool)
  print_where_clause_item relation tuple natt first_column = do
    attr ← attr_at relation natt
    if is_skipped attr then some ([], first_column) else do
      t ← tuple
      some (separator first_column (codes " AND ") ++ equation attr t natt, false)

  unfoldable pub print_where_items :
      Relation → Option (HeapTuple Datum) → List ℕ → Bool → Option Bytes
  print_where_items relation tuple [] first_column = some []
  print_where_items relation tuple (natt ∷ natts) first_column = do
    (text, first_column') ← print_where_clause_item relation tuple natt first_column
    rest ← print_where_items relation tuple natts first_column'
    some (text ++ rest)

  -- The columns of the WHERE clause, and the tuple with their values.
  abbrev pub where_items :
      Relation
      → Option (HeapTuple Datum)
      → Option (HeapTuple Datum)
      → Option (List ℕ)
      → Option Bytes
  where_items relation oldtuple newtuple (some indkey) =
      print_where_items relation (or_else oldtuple newtuple) indkey true
  where_items relation oldtuple newtuple none =
      print_where_items relation oldtuple (numbers 1 relation.attrs) true

  unfoldable pub print_where_clause :
      Relation → Option (HeapTuple Datum) → Option (HeapTuple Datum) → Option Bytes
  print_where_clause relation oldtuple newtuple = do
    text ← where_items relation oldtuple newtuple relation.replidindex
    some (codes " WHERE " ++ text)
