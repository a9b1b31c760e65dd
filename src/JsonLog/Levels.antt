-- ===== src/JsonLog/Levels.antt =====
-- jsonlog/jsonlog.c: jsonlog_error_severity and is_log_level_output.
use pg_plugins.Base.{ℕ, Bool, true, false, ◌||◌, Bytes, codes, leb, ◌==◌, if◌then◌else◌}

-- The message levels of the server.
pub record Levels : Type 0 where
  pub debug5 : ℕ
  pub debug4 : ℕ
  pub debug3 : ℕ
  pub debug2 : ℕ
  pub debug1 : ℕ
  pub log : ℕ
  pub commerror : ℕ
  pub info : ℕ
  pub notice : ℕ
  pub warning : ℕ
  pub error : ℕ
  pub fatal : ℕ
  pub panic : ℕ

module _ (lv : Levels) where
  unfoldable pub jsonlog_error_severity : ℕ → Bytes
  jsonlog_error_severity elevel =
      if elevel == lv.debug1
        || elevel == lv.debug2
        || elevel == lv.debug3
        || elevel == lv.debug4
        || elevel == lv.debug5
      then codes "DEBUG"
      else if elevel == lv.log || elevel == lv.commerror
      then codes "LOG"
      else if elevel == lv.info
      then codes "INFO"
      else if elevel == lv.notice
      then codes "NOTICE"
      else if elevel == lv.warning
      then codes "WARNING"
      else if elevel == lv.error
      then codes "ERROR"
      else if elevel == lv.fatal
      then codes "FATAL"
      else if elevel == lv.panic
      then codes "PANIC"
      else codes "???"

  unfoldable pub is_log_level_output : ℕ → ℕ → Bool
  is_log_level_output elevel log_min_level =
      if elevel == lv.log || elevel == lv.commerror
      then (if log_min_level == lv.log || leb log_min_level lv.error then true else false)
      else if log_min_level == lv.log
      then (if leb lv.fatal elevel then true else false)
      else if leb log_min_level elevel
      then true
      else false
