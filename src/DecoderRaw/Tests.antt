-- ===== src/DecoderRaw/Tests.antt =====
-- The decoder on small inputs: tests, and the theorems applied.
use pg_plugins.Base.{
  ℕ, ◌≡◌, refl, Bool, true, false, ◌||◌, ◌&&◌, none, some, List, [], ◌∷◌, ◌++◌, arith, Bytes, codes,
  ◌==◌, str_eq, starts_with, if◌then◌else◌,
}
use pg_plugins.Base.Int.{pos}
use pg_plugins.Base.Result.{ok}
use pg_plugins.Base.Join.{join}
use pg_plugins.DecoderRaw.Types.{
  TypeOid, other_oid, int4_oid, Backend, Attribute, Relation, HeapTuple, Change, Event,
  change_update, identity_full, identity_index, DecoderRawData, switch_to, reset, binary_output,
}
use pg_plugins.DecoderRaw.Print.{
  print_literal, print_relname, print_value, print_where_clause, print_where_items,
  print_where_clause_item, equation, is_skipped, separator, double_quotes,
}
use pg_plugins.DecoderRaw.Statements.{
  insert_columns, decoder_raw_insert, set_columns, decoder_raw_delete, decoder_raw_update,
}
use pg_plugins.DecoderRaw.Callbacks.{
  DefElem, Startup, written, decoder_raw_change, decode_change, is_non_selective,
  decoder_raw_startup, set_options, set_option, set_include_transaction, set_output_format,
}
use pg_plugins.DecoderRaw.Literals.{scan_literal, literal_roundtrip}
use pg_plugins.DecoderRaw.Columns.{names, values, live, equations, changed, insert_statement}
use pg_plugins.DecoderRaw.Where.{conditions, update_statement}

abbrev is_varlena : TypeOid → Bool
is_varlena (other_oid _) = true
is_varlena _ = false

-- A server whose values are their own texts; a text that starts with @ is stored out of line.
abbrev backend : Backend Bytes
backend = record {
  typisvarlena = is_varlena;
  is_external_ondisk = λ d. starts_with (codes "@") d;
  detoast = λ d. d;
  output = λ typid d. d;
  sql_str_double = λ ch escape_backslash. ch == b'\'' || (ch == b'\\' && escape_backslash);
  quote_identifier = λ name. name;
  quote_qualified_identifier = λ space name. space ++ (codes "." ++ name);
  namespace_name = λ relid. codes "public";
  parse_bool = λ s. if str_eq s (codes "on") then some true else none;
}

doubles : (ch : ℕ) → backend.sql_str_double ch false ≡ (ch == b'\'')
doubles ch = ground arith

abbrev id_column : Attribute
id_column = record {
  attname = codes "id";
  atttypid = int4_oid;
  attisdropped = false;
  attnum = pos 1;
}

abbrev gone_column : Attribute
gone_column = record {
  attname = codes "x";
  atttypid = int4_oid;
  attisdropped = true;
  attnum = pos 2;
}

abbrev text_column : Attribute
text_column = record {
  attname = codes "t";
  atttypid = other_oid 25;
  attisdropped = false;
  attnum = pos 3;
}

abbrev keyed : Relation
keyed = record {
  relid = 1;
  relname = codes "r";
  relreplident = identity_index;
  replidindex = some (1 ∷ []);
  attrs = id_column ∷ gone_column ∷ text_column ∷ [];
}

abbrev full : Relation
full = record keyed { relreplident = identity_full; replidindex = none }

abbrev row : HeapTuple Bytes
row natt = if natt == 1 then some (codes "7") else if natt == 3 then some (codes "it's") else none

abbrev toasted_row : HeapTuple Bytes
toasted_row natt = if natt == 1 then some (codes "8") else some (codes "@")

abbrev update : Change Bytes
update = record {
  action = change_update;
  oldtuple = none;
  newtuple = some toasted_row;
  restart_seqs = true;
  cascade = false;
}

abbrev data_ : DecoderRawData
data_ = record { context = 5; include_transaction = true }

insert_test :
    decoder_raw_insert backend keyed row ≡ codes "INSERT INTO public.r (id, t) VALUES (7, 'it''s');"
unfolding decoder_raw_insert insert_columns print_relname print_value print_literal double_quotes
    separator is_skipped starts_with
insert_test = refl

-- All the columns of a row that are at hand identify it, but an unchanged column may leave
-- nothing to set.
update_test :
    decoder_raw_update backend keyed none (some toasted_row)
    ≡ some (codes "UPDATE public.r SET id = 8 WHERE id = 8;")
unfolding decoder_raw_update set_columns print_relname print_value print_literal equation separator
    is_skipped print_where_clause print_where_items print_where_clause_item starts_with
update_test = refl

-- A null value is compared by =.
delete_null_test :
    decoder_raw_delete backend full (some (λ natt. none))
    ≡ some (codes "DELETE FROM public.r WHERE id = null AND t = null;")
unfolding decoder_raw_delete print_relname print_value equation separator is_skipped
    print_where_clause print_where_items print_where_clause_item
delete_null_test = refl

literal_roundtrip_example :
    scan_literal (print_literal backend (other_oid 25) (codes "it's") ++ codes ", 1")
    ≡ some (codes "it's", codes ", 1")
literal_roundtrip_example = literal_roundtrip backend doubles 25 (codes "it's") (codes ", 1") refl

insert_statement_example :
    decoder_raw_insert backend keyed row
    ≡ codes "INSERT INTO "
      ++ (print_relname backend keyed
          ++ (codes " ("
              ++ (join (codes ", ") (names backend (live 1 keyed.attrs))
                  ++ (codes ") VALUES ("
                      ++ (join (codes ", ") (values backend row (live 1 keyed.attrs))
                          ++ codes ");")))))
insert_statement_example = insert_statement backend keyed row

update_statement_example :
    decoder_raw_update backend keyed none (some toasted_row)
    ≡ some (
        codes "UPDATE "
        ++ (print_relname backend keyed
            ++ (codes " SET "
                ++ (join
                      (codes ", ")
                      (equations backend toasted_row (changed backend toasted_row 1 keyed.attrs))
                    ++ (codes " WHERE " ++ (conditions backend keyed toasted_row ++ codes ";"))))))
update_statement_example =
    update_statement backend keyed none toasted_row toasted_row (omega arith) refl

abbrev options : List DefElem
options =
    record { defname = codes "include_transaction"; arg = some (codes "on") }
    ∷ record { defname = codes "output_format"; arg = some (codes "binary") }
    ∷ []

abbrev started : Startup
started = record {
  data_ = record { context = 5; include_transaction = true };
  output_type = binary_output;
}

abbrev update_events : List Event
update_events =
    switch_to 5
    ∷ (written (codes "UPDATE public.r SET id = 8 WHERE id = 8;") ++ (switch_to 9 ∷ reset 5 ∷ []))

change_test : decoder_raw_change backend data_ 9 keyed update ≡ some update_events
unfolding decoder_raw_change decode_change is_non_selective decoder_raw_update set_columns
    print_relname print_value print_literal equation separator is_skipped print_where_clause
    print_where_items print_where_clause_item starts_with
change_test = refl

startup_test : decoder_raw_startup backend 5 options ≡ ok started
unfolding decoder_raw_startup set_options set_option set_include_transaction set_output_format
    str_eq
startup_test = refl
