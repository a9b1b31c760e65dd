-- ===== src/Workers/HelloNotify.antt =====
-- hello_notify/hello_notify.c: the worker that notifies of the queries that run for long.
use pg_plugins.Base.{ℕ, ◌*◌, true, false, List, [], ◌∷◌, ◌++◌, Bytes, codes, length, if◌then◌else◌}
use pg_plugins.Base.Int.{ℤ}
use pg_plugins.Workers.Loop.{
  Signal, sighup, sigterm, Flags, SpiResult, ok_select, other_code, Event, wait_latch, reset_latch,
  start_timestamp, start_transaction, spi_connect, push_snapshot, process_config, report_running,
  execute, log, spi_finish, pop_snapshot, commit, report_idle, Step, again, exits, rounds,
}

-- hello_notify_sigterm, hello_notify_sighup
unfoldable pub hello_notify_signals : List Signal → Flags → Flags
hello_notify_signals [] f = f
hello_notify_signals (sigterm ∷ ss) f = hello_notify_signals ss (record f { got_sigterm = true })
hello_notify_signals (sighup ∷ ss) f = hello_notify_signals ss (record f { got_sighup = true })

-- The GUC variables that the configuration file may change.
pub record NotifySettings : Type 0 where
  pub notify_nap_time : ℕ
  pub notify_channel : Bytes

-- The answer to the query has one row for each notification; a row is not read.
pub record Wakeup : Type 0 where
  pub early : List Signal
  pub config_file : NotifySettings
  pub answer : SpiResult (Unit {0})
  pub late : List Signal

pub record State : Type 0 where
  pub flags : Flags
  pub settings : NotifySettings
  pub buf : Bytes

-- The white space that continues the string literal.
abbrev tabs2 : Bytes
tabs2 = 9 ∷ 9 ∷ []

abbrev tabs3 : Bytes
tabs3 = 9 ∷ tabs2

abbrev tabs4 : Bytes
tabs4 = 9 ∷ tabs3

module _ (print_int : ℤ → Bytes) (print_unsigned : ℕ → Bytes) where
  -- What is appended to the buffer.
  unfoldable pub hello_notify_build_query : NotifySettings → Bytes
  hello_notify_build_query settings =
      tabs2
      ++ codes "SELECT pg_notify('"
      ++ settings.notify_channel
      ++ codes "', row_to_json(q)::text)"
      ++ tabs2
      ++ codes "FROM ( "
      ++ tabs3
      ++ codes "SELECT datname AS database,"
      ++ tabs4
      ++ codes "usename AS username,"
      ++ tabs4
      ++ codes "state,"
      ++ tabs4
      ++ codes "TRIM(query) AS query"
      ++ tabs3
      ++ codes "FROM pg_stat_activity"
      ++ tabs3
      ++ codes "WHERE xact_start < NOW() - interval '"
      ++ print_unsigned settings.notify_nap_time
      ++ codes " s' AND"
      ++ tabs4
      ++ codes "state = 'active' AND"
      ++ tabs4
      ++ codes "pid != pg_backend_pid()"
      ++ tabs2
      ++ codes ") AS q"

  -- The block of `if (got_sighup)`: the query is appended to what the buffer holds.
  unfoldable pub hello_notify_reload :
      (config_file : NotifySettings) → State → List (Event NotifySettings) × State
  unfolding hello_notify_build_query
  hello_notify_reload config_file s =
      if s.flags.got_sighup
      then (
        log (codes "bgworker hello_notify: processing SIGHUP") ∷ process_config config_file ∷ [],
        record {
          flags = record { got_sigterm = s.flags.got_sigterm; got_sighup = false };
          settings = config_file;
          buf = s.buf ++ hello_notify_build_query config_file;
        },
      )
      else ([], s)

  -- The transaction of a round.
  unfoldable pub hello_notify_query :
      SpiResult (Unit {0}) → State → List (Event NotifySettings) × Step State
  hello_notify_query answer s =
      let begins =
        start_timestamp
        ∷ report_running (codes "hello_notify")
        ∷ start_transaction
        ∷ spi_connect
        ∷ push_snapshot
        ∷ execute s.buf
        ∷ [] in
      elim answer [
        | other_code code ↦ (
          begins
              ++ log (codes "hello_notify: SPI_execute failed with error code " ++ print_int code)
                ∷ [],
          exits 1,
        )
        | ok_select rows ↦ (
          begins
              ++ (log (codes "hello_notify: executed " ++ print_unsigned (length rows))
                  ∷ spi_finish
                  ∷ pop_snapshot
                  ∷ commit
                  ∷ report_idle
                  ∷ []),
          again s,
        )
      ]

  unfoldable pub hello_notify_awake : Wakeup → State → List (Event NotifySettings) × Step State
  unfolding hello_notify_reload hello_notify_query hello_notify_signals
  hello_notify_awake w s =
      let reloaded = hello_notify_reload w.config_file s in
      let s1 = reloaded.1 in
      if s1.flags.got_sigterm
      then (reloaded.0 ++ log (codes "hello signal: processed SIGTERM, leaving...") ∷ [], exits 0)
      else let s2 = record s1 { flags = hello_notify_signals w.late s1.flags } in
        let queried = hello_notify_query w.answer s2 in (reloaded.0 ++ queried.0, queried.1)

  -- One round, from the test of the loop on.
  unfoldable pub hello_notify_round : Wakeup → State → List (Event NotifySettings) × Step State
  unfolding hello_notify_awake
  hello_notify_round w s =
      if s.flags.got_sigterm
      then (log (codes "hello_notify: finished") ∷ [], exits 0)
      else let s1 = record s { flags = hello_notify_signals w.early s.flags } in
        let awake = hello_notify_awake w s1 in
        (wait_latch (s.settings.notify_nap_time * 1000) ∷ reset_latch ∷ awake.0, awake.1)

  -- hello_notify_main, behind the connection and the message of the start.
  unfoldable pub hello_notify_main :
      NotifySettings → List Wakeup → List (Event NotifySettings) × Step State
  unfolding rounds hello_notify_round
  hello_notify_main settings ws = rounds hello_notify_round ws (record {
    flags = record { got_sigterm = false; got_sighup = false };
    settings = settings;
    buf = hello_notify_build_query settings;
  })
