-- ===== src/Workers/KillIdle.antt =====
-- kill_idle/kill_idle.c: the worker that ends idle sessions.
use pg_plugins.Base.{
  ℕ, ◌*◌, true, false, Option, none, some, List, [], ◌∷◌, ◌++◌, Bytes, codes, ◌==◌, if◌then◌else◌,
}
use pg_plugins.Base.Int.{ℤ}
use pg_plugins.Workers.Loop.{
  Signal, sighup, sigterm, Flags, SpiResult, ok_select, other_code, Event, wait_latch, reset_latch,
  start_timestamp, start_transaction, spi_connect, push_snapshot, process_config, report_running,
  execute, log, spi_finish, pop_snapshot, commit, report_idle, Step, again, exits, rounds,
}

-- kill_idle_sigterm, kill_idle_sighup
unfoldable pub kill_idle_signals : List Signal → Flags → Flags
kill_idle_signals [] f = f
kill_idle_signals (sigterm ∷ ss) f = kill_idle_signals ss (record f { got_sigterm = true })
kill_idle_signals (sighup ∷ ss) f = kill_idle_signals ss (record f { got_sighup = true })

-- A session that was ended; a NULL column is none.
pub record Ended : Type 0 where
  pub pid : ℤ
  pub usename : Option Bytes
  pub datname : Option Bytes
  pub client_addr : Option Bytes

-- The signals during the wait and behind the tests, the value of kill_idle.max_idle_time in the
-- configuration file, and the answer to the query.
pub record Wakeup : Type 0 where
  pub early : List Signal
  pub config_file : ℕ
  pub answer : SpiResult Ended
  pub late : List Signal

pub record State : Type 0 where
  pub flags : Flags
  pub kill_max_idle_time : ℕ
  pub buf : Bytes

abbrev or_none : Option Bytes → Bytes
or_none none = codes "none"
or_none (some text) = text

module _ (print_int : ℤ → Bytes) (print_unsigned : ℕ → Bytes) where
  -- What is appended to the buffer.
  unfoldable pub kill_idle_build_query : (kill_max_idle_time : ℕ) → Bytes
  kill_idle_build_query kill_max_idle_time =
      codes "SELECT pid, pg_terminate_backend(pid) AS status, usename, datname, client_addr "
      ++ codes "FROM pg_stat_activity WHERE now() - state_change > interval '"
      ++ print_unsigned kill_max_idle_time
      ++ codes " s' AND state = 'idle' AND pid != pg_backend_pid();"

  -- The block of `if (got_sighup)`; the query is built anew where the interval has changed.
  unfoldable pub kill_idle_reload : (config_file : ℕ) → State → List (Event ℕ) × State
  unfolding kill_idle_build_query
  kill_idle_reload config_file s =
      if s.flags.got_sighup
      then (
        process_config config_file ∷ log (codes "bgworker kill_idle signal: processed SIGHUP") ∷ [],
        record {
          flags = record { got_sigterm = s.flags.got_sigterm; got_sighup = false };
          kill_max_idle_time = config_file;
          buf =
              if s.kill_max_idle_time == config_file
              then s.buf
              else kill_idle_build_query config_file;
        },
      )
      else ([], s)

  unfoldable pub disconnected : List Ended → List (Event ℕ)
  disconnected [] = []
  disconnected (e ∷ es) =
      log (
        codes "Disconnected idle connection: PID "
        ++ print_int e.pid
        ++ codes " "
        ++ or_none e.datname
        ++ codes "/"
        ++ or_none e.usename
        ++ codes "/"
        ++ or_none e.client_addr)
      ∷ disconnected es

  -- The transaction of a round; a FATAL error ends the process with code 1.
  unfoldable pub kill_idle_query : SpiResult Ended → State → List (Event ℕ) × Step State
  unfolding disconnected
  kill_idle_query answer s =
      let begins =
        start_timestamp
        ∷ start_transaction
        ∷ spi_connect
        ∷ push_snapshot
        ∷ report_running s.buf
        ∷ start_timestamp
        ∷ execute s.buf
        ∷ [] in
      elim answer [
        | other_code code ↦
            (begins ++ log (codes "Error when trying to kill idle connections") ∷ [], exits 1)
        | ok_select ended ↦ (
          begins ++ (disconnected ended ++ spi_finish ∷ pop_snapshot ∷ commit ∷ report_idle ∷ []),
          again s,
        )
      ]

  -- The tests of the signals, and the query.
  unfoldable pub kill_idle_awake : Wakeup → State → List (Event ℕ) × Step State
  unfolding kill_idle_reload kill_idle_query kill_idle_signals
  kill_idle_awake w s =
      let reloaded = kill_idle_reload w.config_file s in
      let s1 = reloaded.1 in
      if s1.flags.got_sigterm
      then (reloaded.0 ++ log (codes "bgworker kill_idle signal: processed SIGTERM") ∷ [], exits 0)
      else let s2 = record s1 { flags = kill_idle_signals w.late s1.flags } in
        let queried = kill_idle_query w.answer s2 in (reloaded.0 ++ queried.0, queried.1)

  -- One round, from the test of the loop on.
  unfoldable pub kill_idle_round : Wakeup → State → List (Event ℕ) × Step State
  unfolding kill_idle_awake
  kill_idle_round w s =
      if s.flags.got_sigterm
      then ([], exits 0)
      else let s1 = record s { flags = kill_idle_signals w.early s.flags } in
        let awake = kill_idle_awake w s1 in
        (wait_latch (s.kill_max_idle_time * 1000) ∷ reset_latch ∷ awake.0, awake.1)

  -- kill_idle_main, behind the connection.
  unfoldable pub kill_idle_main :
      (kill_max_idle_time : ℕ) → List Wakeup → List (Event ℕ) × Step State
  unfolding rounds kill_idle_round
  kill_idle_main kill_max_idle_time ws = rounds kill_idle_round ws (record {
    flags = record { got_sigterm = false; got_sighup = false };
    kill_max_idle_time = kill_max_idle_time;
    buf = kill_idle_build_query kill_max_idle_time;
  })
