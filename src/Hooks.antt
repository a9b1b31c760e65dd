-- ===== src/Hooks.antt =====
-- hook_utility/hook_utility.c, pg_trunc2del/pg_trunc2del.c and object_hooks/object_hooks.c: plugins that
-- put themselves in front of a hook of the server.
pub mod Utility
pub mod ObjectAccess
mod Chain
mod Forwarding
mod Tests
