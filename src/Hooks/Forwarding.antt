-- ===== src/Hooks/Forwarding.antt =====
-- object_hooks/object_hooks.c: what an access logs, and when the earlier hook is called.
use pg_plugins.Base.{
  ◌≡◌, ◌∙◌, ap, refl, Bool, Bool-cases, Option, Option-cases, List, inl, inr, true, false, none,
  some, [], ◌∷◌, ◌++◌, Bytes, codes, if◌then◌else◌,
}
use pg_plugins.Hooks.ObjectAccess.{
  Access, oat_post_create, oat_drop, oat_post_alter, oat_namespace_search, oat_function_execute,
  oat_truncate, ObjectAddress, Event, notice, prev_hook, Catalog, log_access, switch_access,
  object_hooks_access_entry,
}

-- The name of an access in the log.
abbrev pub name_of : Access → Bytes
name_of (oat_post_create is_internal) = codes "OAT_POST_CREATE"
name_of (oat_drop dropflags) = codes "OAT_DROP"
name_of (oat_post_alter is_internal) = codes "OAT_POST_ALTER"
name_of oat_namespace_search = codes "OAT_NAMESPACE_SEARCH"
name_of oat_function_execute = codes "OAT_FUNCTION_EXECUTE"
name_of oat_truncate = codes "OAT_TRUNCATE"

module _ (catalog : Catalog) where
  -- An internal creation or deletion.
  abbrev pub is_internal_object : Access → Bool
  is_internal_object (oat_post_create (some is_internal)) = is_internal
  is_internal_object (oat_drop dropflags) = catalog.deletion_is_internal dropflags
  is_internal_object _ = false

  abbrev pub is_internal_access : Access → Bool
  is_internal_access (oat_post_alter is_internal) = is_internal
  is_internal_access access = is_internal_object access

  -- The entry of an access to an object with an identity; none where the object is gone.
  abbrev pub entries : Option Bytes → Access → ObjectAddress → List Event
  entries none access address = []
  entries (some identity) access address =
      notice (
        codes "access: "
        ++ name_of access
        ++ codes " type: "
        ++ catalog.type_description address
        ++ codes ", identity: "
        ++ identity)
      ∷ []

  log_access-entries :
      (access : Access) (address : ObjectAddress)
      → log_access catalog (name_of access) address
        ≡ entries (catalog.identity address) access address
  unfolding log_access
  log_access-entries access address = elim (Option-cases (catalog.identity address)) [
    | inl gone ↦ rw (log_access, gone) refl
    | inr (identity, found) ↦ rw (log_access, found) refl
  ]

  -- What an access does: its entries, and the call of the earlier hook.
  abbrev expected : Bool → Access → ObjectAddress → List Event → List Event
  expected prev access address logged =
      (if is_internal_access access then [] else logged)
      ++ (if is_internal_object access
          then []
          else if prev
          then prev_hook access address ∷ []
          else [])

  forwarded :
      (prev : Bool) (access : Access) (address : ObjectAddress)
      → object_hooks_access_entry catalog prev access address
        ≡ expected prev access address (log_access catalog (name_of access) address)
  unfolding object_hooks_access_entry switch_access
  forwarded prev (oat_post_create none) address = refl
  forwarded prev (oat_post_create (some true)) address = refl
  forwarded prev (oat_post_create (some false)) address = refl
  forwarded prev (oat_drop dropflags) address =
      elim (Bool-cases (catalog.deletion_is_internal dropflags)) [
        | inl internal ↦ rw (object_hooks_access_entry, switch_access, internal)
        | inr external ↦ rw (object_hooks_access_entry, switch_access, external)
      ]
  forwarded prev (oat_post_alter true) address = refl
  forwarded prev (oat_post_alter false) address = refl
  forwarded prev oat_namespace_search address = refl
  forwarded prev oat_function_execute address = refl
  forwarded prev oat_truncate address = refl

  -- An access that is not internal, to an object that exists, is logged by one notice with its name, the
  -- type of the object and its identity; an internal one, or one to an object that is gone, is not
  -- logged. Behind that the earlier hook gets the same access, if there is such a hook, unless the access
  -- is an internal creation or deletion; an internal alteration does reach it.
  pub object_access_lem :
      (prev_object_access_hook : Bool) (access : Access) (address : ObjectAddress)
      → object_hooks_access_entry catalog prev_object_access_hook access address
        ≡ (if is_internal_access access
            then []
            else entries (catalog.identity address) access address)
          ++ (if is_internal_object access
              then []
              else if prev_object_access_hook
              then prev_hook access address ∷ []
              else [])
  object_access_lem prev access address =
      forwarded prev access address
      ∙ ap (expected prev access address) (log_access-entries access address)
