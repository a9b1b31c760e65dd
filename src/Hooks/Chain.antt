-- ===== src/Hooks/Chain.antt =====
-- hook_utility/hook_utility.c and pg_trunc2del/pg_trunc2del.c: the two hooks loaded together.
use pg_plugins.Base.{
  ◌≡◌, ◌≢◌, ◌⊎◌, inl, inr, refl, Bool-cases, Option, Option-cases, none, some, List, [], ◌∷◌, ◌++◌,
  append_assoc, Bytes, codes, arith, str_eq, true, false, str_eq_iff,
}
use pg_plugins.Hooks.Utility.{
  Statement, dropdb_stmt, truncate_stmt, other_stmt, insufficient_privilege, undefined_table,
  error_while_truncating, raises, returns, lock_table, close_table, spi_connect, spi_finish,
  execute, RangeVar, delete_query, Hook, call_previous, Restriction, dbrestrict_utility, Backend,
  trunc2del,
}

module _ (c : Restriction) (backend : Backend) (prev : Option Hook) where
  -- The hooks with hook_utility loaded last.
  abbrev pub loaded : Hook
  loaded = dbrestrict_utility c (some (trunc2del backend prev))

  -- DROP DATABASE of the one database by another user than the one that may.
  abbrev pub Forbidden : Bytes → Type 0
  Forbidden dbname = (dbname ≡ c.hook_dbname) × (c.user_name ≢ c.hook_username)

  abbrev pub Allowed : Bytes → Type 0
  Allowed dbname = (dbname ≢ c.hook_dbname) ⊎ (c.user_name ≡ c.hook_username)

  -- The name of a relation in a query, and the deletion of all its rows.
  abbrev pub qualified_name : RangeVar → Bytes
  qualified_name rv = elim rv.schemaname [
    | none ↦ backend.quote_identifier rv.relname
    | some schema ↦
        backend.quote_identifier schema ++ codes "." ++ backend.quote_identifier rv.relname
  ]

  abbrev pub deletion_from : RangeVar → Bytes
  deletion_from rv = codes "DELETE FROM " ++ qualified_name rv ++ codes ";"

  -- What the two hooks make of a statement.
  abbrev pub Outcome : Statement → Type 0
  Outcome (dropdb_stmt dbname) =
      (Forbidden dbname
        × (loaded (dropdb_stmt dbname)
            ≡ ([], raises (insufficient_privilege c.hook_username c.hook_dbname))))
      ⊎ (Allowed dbname × (loaded (dropdb_stmt dbname) ≡ call_previous prev (dropdb_stmt dbname)))
  Outcome (truncate_stmt rv others) =
      ((backend.table_exists rv ≡ false)
        × (loaded (truncate_stmt rv others) ≡ ([], raises (undefined_table rv))))
      ⊎ ((backend.table_exists rv ≡ true)
          × (backend.deletes (deletion_from rv) ≡ false)
          × (loaded (truncate_stmt rv others) ≡ (
            lock_table rv ∷ spi_connect ∷ execute (deletion_from rv) ∷ [],
            raises error_while_truncating,
          )))
      ⊎ ((backend.table_exists rv ≡ true)
          × (backend.deletes (deletion_from rv) ≡ true)
          × (loaded (truncate_stmt rv others) ≡ (
            lock_table rv
                ∷ spi_connect
                ∷ execute (deletion_from rv)
                ∷ spi_finish
                ∷ close_table rv
                ∷ [],
            returns,
          )))
  Outcome (other_stmt n) = loaded (other_stmt n) ≡ call_previous prev (other_stmt n)

  dropdb_lem : (dbname : Bytes) → Outcome (dropdb_stmt dbname)
  unfolding dbrestrict_utility trunc2del call_previous
  dropdb_lem dbname = elim (Bool-cases (str_eq dbname c.hook_dbname)) [
    | inl same ↦ elim (Bool-cases (str_eq c.user_name c.hook_username)) [
      | inl allowed ↦ inr (inr ((str_eq_iff _ _).0 allowed), rw (dbrestrict_utility, same, allowed))
      | inr denied ↦ inl (
        (
          (str_eq_iff _ _).0 same,
          λ e. ground ((str_eq_iff c.user_name c.hook_username).1 e, denied, arith),
        ),
        rw (dbrestrict_utility, same, denied),
      )
    ]
    | inr other ↦ inr (
      inl (λ e. ground ((str_eq_iff dbname c.hook_dbname).1 e, other, arith)),
      rw (dbrestrict_utility, other),
    )
  ]

  delete_query-deletion_from : (rv : RangeVar) → delete_query backend rv ≡ deletion_from rv
  unfolding delete_query
  delete_query-deletion_from rv = elim (Option-cases rv.schemaname) [
    | inl unqualified ↦ rw (delete_query, unqualified) refl
    | inr (schema, qualified) ↦ rw (delete_query, qualified) (simp append_assoc)
  ]

  truncate_lem : (rv : RangeVar) (others : List RangeVar) → Outcome (truncate_stmt rv others)
  unfolding dbrestrict_utility trunc2del call_previous
  truncate_lem rv others =
      let query = delete_query-deletion_from rv in
      elim (Bool-cases (backend.table_exists rv)) [
        | inr missing ↦ inl (missing, rw (trunc2del, missing) refl)
        | inl found ↦ elim (Bool-cases (backend.deletes (deletion_from rv))) [
          | inr failed ↦ inr (inl (found, failed, rw (trunc2del, query, found, failed) refl))
          | inl done ↦ inr (inr (found, done, rw (trunc2del, query, found, done) refl))
        ]
      ]

  utility_outcome : (stmt : Statement) → Outcome stmt
  unfolding dbrestrict_utility trunc2del call_previous
  utility_outcome (dropdb_stmt dbname) = dropdb_lem dbname
  utility_outcome (truncate_stmt rv others) = truncate_lem rv others
  utility_outcome (other_stmt n) = refl

  loaded_order :
      (stmt : Statement) → loaded stmt ≡ trunc2del backend (some (dbrestrict_utility c prev)) stmt
  unfolding dbrestrict_utility trunc2del call_previous
  loaded_order (dropdb_stmt dbname) = refl
  loaded_order (truncate_stmt rv others) = refl
  loaded_order (other_stmt n) = refl

  -- hook_utility and pg_trunc2del together, in front of any earlier hook or none: it makes no
  -- difference which of the two is loaded first. DROP DATABASE does nothing but raise the error where
  -- the database is the protected one and the user is not the one allowed, and is passed on otherwise.
  -- TRUNCATE is not passed on, and only its first relation matters: where there is no such relation it
  -- raises that error; otherwise it locks the relation and executes DELETE FROM with the quoted name,
  -- qualified where the schema is written, and then closes the relation, or raises an error where the
  -- query does not delete. Every other statement is passed on.
  pub utility_hooks :
      (stmt : Statement)
      → (loaded stmt ≡ trunc2del backend (some (dbrestrict_utility c prev)) stmt) × Outcome stmt
  utility_hooks stmt = (loaded_order stmt, utility_outcome stmt)
