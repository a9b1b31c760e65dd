-- ===== src/Hooks/Tests.antt =====
-- Runs of the hooks, and their theorems at concrete inputs.
use pg_plugins.Base.{◌≡◌, refl, Bool, true, false, none, some, [], ◌∷◌, Bytes, codes, str_eq}
use pg_plugins.Hooks.Utility.{
  RangeVar, dropdb_stmt, truncate_stmt, standard_process_utility, lock_table, close_table,
  spi_connect, spi_finish, execute, insufficient_privilege, undefined_table, error_while_truncating,
  returns, raises, Restriction, dbrestrict_utility, Backend, trunc2del,
}
use pg_plugins.Hooks.Chain.{Outcome, utility_hooks, loaded}
use pg_plugins.Hooks.ObjectAccess.{
  oat_post_create, oat_drop, oat_post_alter, ObjectAddress, notice, prev_hook, Catalog,
  object_hooks_access_entry,
}
use pg_plugins.Hooks.Forwarding.{object_access_lem}

abbrev restriction : Restriction
restriction = record {
  hook_dbname = codes "prod";
  hook_username = codes "root";
  user_name = codes "joe";
}

abbrev quotes : (exists deletes : Bool) → Backend
quotes exists deletes = record {
  quote_identifier = λ s. s;
  table_exists = λ _. exists;
  deletes = λ _. deletes;
}

abbrev table : Bytes → RangeVar
table name = record { schemaname = some (codes "s"); relname = name }

utility_hooks_example :
    (loaded restriction
        (quotes true true)
        none
        (truncate_stmt (table (codes "a")) (table (codes "b") ∷ []))
      ≡ trunc2del
          (quotes true true)
          (some (dbrestrict_utility restriction none))
          (truncate_stmt (table (codes "a")) (table (codes "b") ∷ [])))
    × Outcome restriction
        (quotes true true)
        none
        (truncate_stmt (table (codes "a")) (table (codes "b") ∷ []))
utility_hooks_example =
    utility_hooks restriction (quotes true true) none
      (truncate_stmt (table (codes "a")) (table (codes "b") ∷ []))

truncate_test : trunc2del (quotes true true) none (truncate_stmt (table (codes "a")) []) ≡ (
  lock_table (table (codes "a"))
      ∷ spi_connect
      ∷ execute (codes "DELETE FROM s.a;")
      ∷ spi_finish
      ∷ close_table (table (codes "a"))
      ∷ [],
  returns,
)
unfolding trunc2del
truncate_test = refl

no_table_test :
    trunc2del (quotes false true) none (truncate_stmt (table (codes "a")) [])
    ≡ ([], raises (undefined_table (table (codes "a"))))
unfolding trunc2del
no_table_test = refl

not_deleted_test :
    (trunc2del (quotes true false) none (truncate_stmt (table (codes "a")) [])).1
    ≡ raises error_while_truncating
unfolding trunc2del
not_deleted_test = refl

drop_refused_test :
    dbrestrict_utility restriction none (dropdb_stmt (codes "prod"))
    ≡ ([], raises (insufficient_privilege (codes "root") (codes "prod")))
unfolding dbrestrict_utility str_eq
drop_refused_test = refl

drop_allowed_test :
    dbrestrict_utility restriction none (dropdb_stmt (codes "test"))
    ≡ (standard_process_utility (dropdb_stmt (codes "test")) ∷ [], returns)
unfolding dbrestrict_utility str_eq
drop_allowed_test = refl

abbrev catalog : Catalog
catalog = record {
  identity = λ _. some (codes "t");
  type_description = λ _. codes "table";
  deletion_is_internal = λ _. true;
}

abbrev address : ObjectAddress
address = record { class_id = 1; object_id = 2; object_sub_id = 0 }

-- An internal deletion does not reach the earlier hook.
object_access_lem_example : object_hooks_access_entry catalog true (oat_drop 1) address ≡ []
object_access_lem_example = object_access_lem catalog true (oat_drop 1) address

internal_alter_test :
    object_hooks_access_entry catalog true (oat_post_alter true) address
    ≡ prev_hook (oat_post_alter true) address ∷ []
unfolding object_hooks_access_entry
internal_alter_test = refl

create_test :
    object_hooks_access_entry catalog false (oat_post_create none) address
    ≡ notice (codes "access: OAT_POST_CREATE type: table, identity: t") ∷ []
unfolding object_hooks_access_entry
create_test = refl
