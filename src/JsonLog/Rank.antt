-- ===== src/JsonLog/Rank.antt =====
-- jsonlog/jsonlog.c: the order of levels behind is_log_level_output.
use pg_plugins.Base.{ℕ, ◌+◌, ◌*◌, ◌≤◌, ◌<◌, ◌≡◌, ◌⊎◌, ◌||◌, arith, leb, ◌==◌, if◌then◌else◌}
use pg_plugins.JsonLog.Levels.{Levels, is_log_level_output}

module _ (lv : Levels) where
  -- The place of a message's level, and of the minimum: levels keep their order, but LOG lies
  -- between ERROR and FATAL, and so does COMMERROR for a message.
  abbrev pub rank : ℕ → ℕ
  rank elevel = if elevel == lv.log || elevel == lv.commerror then 2 * lv.error + 1 else 2 * elevel

  abbrev pub min_rank : ℕ → ℕ
  min_rank level = if level == lv.log then 2 * lv.error + 1 else 2 * level

  -- A message is written exactly where the place of its level is not below that of the minimum,
  -- with LOG placed between ERROR and FATAL: where FATAL is above ERROR, and the message's level is
  -- not between them.
  pub is_log_level_output_lem :
      (elevel log_min_level : ℕ)
      → lv.error < lv.fatal
      → (elevel ≤ lv.error) ⊎ (lv.fatal ≤ elevel)
      → is_log_level_output lv elevel log_min_level ≡ leb (min_rank log_min_level) (rank elevel)
  unfolding is_log_level_output
  is_log_level_output_lem elevel log_min_level order outside = ground arith
