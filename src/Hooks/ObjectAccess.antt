-- ===== src/Hooks/ObjectAccess.antt =====
-- object_hooks/object_hooks.c: the hook on the access to objects.
use pg_plugins.Base.{
  ℕ, Bool, true, Option, none, some, List, [], ◌∷◌, ◌++◌, Bytes, codes, if◌then◌else◌,
}

-- ObjectAccessType with what the hook reads of its argument: is_internal, where the argument of a
-- creation may be NULL, and the flags of a deletion.
pub data Access : Type 0 where
  oat_post_create : (is_internal : Option Bool) → Access
  oat_drop : (dropflags : ℕ) → Access
  oat_post_alter : (is_internal : Bool) → Access
  oat_namespace_search oat_function_execute oat_truncate : Access

pub record ObjectAddress : Type 0 where
  pub class_id : ℕ
  pub object_id : ℕ
  pub object_sub_id : ℕ

pub data Event : Type 0 where
  notice : Bytes → Event
  prev_hook : Access → ObjectAddress → Event

-- getObjectIdentity, which is NULL where the object does not exist, getObjectTypeDescription, and
-- the test of PERFORM_DELETION_INTERNAL.
pub record Catalog : Type 0 where
  pub identity : ObjectAddress → Option Bytes
  pub type_description : ObjectAddress → Bytes
  pub deletion_is_internal : ℕ → Bool

-- What the switch leads to: the name of the access, a jump to `finish`, or a return.
pub data Switch : Type 0 where
  accessname : Bytes → Switch
  goto_finish leaves : Switch

module _ (catalog : Catalog) where
  unfoldable pub switch_access : Access → Switch
  switch_access (oat_post_create (some true)) = leaves
  switch_access (oat_post_create _) = accessname (codes "OAT_POST_CREATE")
  switch_access (oat_drop dropflags) =
      if catalog.deletion_is_internal dropflags then leaves else accessname (codes "OAT_DROP")
  switch_access (oat_post_alter is_internal) =
      if is_internal then goto_finish else accessname (codes "OAT_POST_ALTER")
  switch_access oat_namespace_search = accessname (codes "OAT_NAMESPACE_SEARCH")
  switch_access oat_function_execute = accessname (codes "OAT_FUNCTION_EXECUTE")
  switch_access oat_truncate = accessname (codes "OAT_TRUNCATE")

  -- The log entry, where the object exists.
  unfoldable pub log_access : Bytes → ObjectAddress → List Event
  log_access name address = elim (catalog.identity address) [
    | none ↦ []
    | some identity ↦
        notice (
          codes "access: "
          ++ name
          ++ codes " type: "
          ++ catalog.type_description address
          ++ codes ", identity: "
          ++ identity)
        ∷ []
  ]

  -- object_hooks_access_entry, where a hook was there before or not.
  unfoldable pub object_hooks_access_entry :
      (prev_object_access_hook : Bool) → Access → ObjectAddress → List Event
  unfolding switch_access log_access
  object_hooks_access_entry prev_object_access_hook access address =
      let finish : List Event =
        if prev_object_access_hook then prev_hook access address ∷ [] else [] in
      elim (switch_access access) [
        | accessname name ↦ log_access name address ++ finish
        | goto_finish ↦ finish
        | leaves ↦ []
      ]
