-- ===== src/Pages/Truncation.antt =====
-- pg_fix_truncation/pg_fix_truncation.c: the truncation of the free space map.
use pg_plugins.Base.{ℕ, Bool, not, ◌&&◌, List, [], ◌∷◌, ◌++◌, ◌==◌, if◌then◌else◌}
use pg_plugins.Base.Result.{Result, ok, ◌>>◌, raise_if}

-- The codes of relkind, and SMGR_TRUNCATE_FSM.
pub record Kinds : Type 0 where
  pub relkind_relation : ℕ
  pub relkind_matview : ℕ
  pub relkind_toastvalue : ℕ
  pub smgr_truncate_fsm : ℕ

-- A relation: its kind, the blocks of its main fork, and whether its changes are logged.
pub record Relation : Type 0 where
  pub relkind : ℕ
  pub main_blocks : ℕ
  pub needs_wal : Bool

pub data TruncateError : Type 0 where
  not_a_table : TruncateError

-- The lock on the relation, the record, and the call of FreeSpaceMapPrepareTruncateRel, whose result
-- is not used.
pub data Event : Type 0 where
  open_exclusive close_exclusive : Event
  log_truncate : (blkno flags : ℕ) → Event
  prepare_truncate : (blkno : ℕ) → Event

module _ (kinds : Kinds) where
  unfoldable pub pg_truncate_fsm : Relation → Result TruncateError (List Event)
  pg_truncate_fsm rel = do
    raise_if
        (not (rel.relkind == kinds.relkind_relation)
          && not (rel.relkind == kinds.relkind_matview)
          && not (rel.relkind == kinds.relkind_toastvalue))
        not_a_table
    let tgt_blk = rel.main_blocks
    let logged : List Event =
        if rel.needs_wal then log_truncate tgt_blk kinds.smgr_truncate_fsm ∷ [] else []
    ok (open_exclusive ∷ (logged ++ prepare_truncate tgt_blk ∷ close_exclusive ∷ []))
