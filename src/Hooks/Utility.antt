-- ===== src/Hooks/Utility.antt =====
-- hook_utility/hook_utility.c and pg_trunc2del/pg_trunc2del.c: the two hooks on utility statements.
use pg_plugins.Base.{
  ℕ, Bool, not, ◌&&◌, Option, none, some, List, [], ◌∷◌, ◌++◌, Bytes, codes, str_eq, if◌then◌else◌,
}

-- RangeVar: the schema, which is NULL where none is written, and the name.
pub record RangeVar : Type 0 where
  pub schemaname : Option Bytes
  pub relname : Bytes

-- The utility statements that a hook tells from the others. TRUNCATE has at least one relation.
pub data Statement : Type 0 where
  dropdb_stmt : (dbname : Bytes) → Statement
  truncate_stmt : RangeVar → (others : List RangeVar) → Statement
  other_stmt : ℕ → Statement

-- What is done for a statement: the server's processing of it, or the calls of trunc2del.
pub data Event : Type 0 where
  standard_process_utility : Statement → Event
  lock_table close_table : RangeVar → Event
  spi_connect spi_finish : Event
  execute : Bytes → Event

-- The ways to end with ereport(ERROR) or elog(ERROR).
pub data Failure : Type 0 where
  insufficient_privilege : (user dbname : Bytes) → Failure
  undefined_table : RangeVar → Failure
  error_while_truncating : Failure

pub data End : Type 0 where
  returns : End
  raises : Failure → End

-- What was done, and how it ended.
abbrev pub Run : Type 0
Run = List Event × End

abbrev pub Hook : Type 0
Hook = Statement → Run

-- The call of prev_utility_hook, or of standard_ProcessUtility where no hook was there before.
unfoldable pub call_previous : Option Hook → Hook
call_previous (some prev_utility_hook) stmt = prev_utility_hook stmt
call_previous none stmt = (standard_process_utility stmt ∷ [], returns)

-- hook_dbname, hook_username, and the name of the current user.
pub record Restriction : Type 0 where
  pub hook_dbname : Bytes
  pub hook_username : Bytes
  pub user_name : Bytes

unfoldable pub dbrestrict_utility : Restriction → Option Hook → Hook
unfolding call_previous
dbrestrict_utility c prev (dropdb_stmt dbname) =
    if str_eq dbname c.hook_dbname && not (str_eq c.user_name c.hook_username)
    then ([], raises (insufficient_privilege c.hook_username c.hook_dbname))
    else call_previous prev (dropdb_stmt dbname)
dbrestrict_utility c prev stmt = call_previous prev stmt

-- quote_identifier, whether table_openrv finds a relation, and whether SPI_execute of a query gives
-- SPI_OK_DELETE.
pub record Backend : Type 0 where
  pub quote_identifier : Bytes → Bytes
  pub table_exists : RangeVar → Bool
  pub deletes : Bytes → Bool

module _ (backend : Backend) where
  unfoldable pub delete_query : RangeVar → Bytes
  delete_query rv =
      let schema : Bytes = elim rv.schemaname [
        | some schemaname ↦ backend.quote_identifier schemaname ++ codes "."
        | none ↦ []
      ] in
      codes "DELETE FROM " ++ schema ++ (backend.quote_identifier rv.relname ++ codes ";")

  unfoldable pub trunc2del : Option Hook → Hook
  unfolding call_previous delete_query
  trunc2del prev (truncate_stmt rv others) =
      let query = delete_query rv in
      let begins = lock_table rv ∷ spi_connect ∷ execute query ∷ [] in
      if not (backend.table_exists rv)
      then ([], raises (undefined_table rv))
      else if not (backend.deletes query)
      then (begins, raises error_while_truncating)
      else (begins ++ spi_finish ∷ close_table rv ∷ [], returns)
  trunc2del prev stmt = call_previous prev stmt
