-- ===== src/Workers/Tests.antt =====
-- The background workers on small inputs: tests, and the theorems applied.
use pg_plugins.Base.{
  ℕ, ◌≡◌, refl, true, false, none, some, List, [], ◌∷◌, ◌++◌, ◌+◌, ◌%◌, Bytes, codes,
}
use pg_plugins.Base.Int.{ℤ, pos}
use pg_plugins.Workers.Loop.{
  Signal, sighup, sigterm, ok_select, other_code, wait_latch, reset_latch, start_transaction,
  spi_connect, push_snapshot, execute, log, spi_finish, pop_snapshot, commit, exits,
}
use pg_plugins.Workers.KillIdle
use pg_plugins.Workers.KillIdle.{kill_idle_build_query, kill_idle_main}
use pg_plugins.Workers.HelloNotify
use pg_plugins.Workers.HelloNotify.{hello_notify_build_query, hello_notify_main}
use pg_plugins.Workers.Simple.{count_relations_main, hello_signal_main, hello_world_main}
use pg_plugins.Workers.Queries.{AreCurrent, kill_idle_queries}
use pg_plugins.Workers.PiledQueries.{ArePiled, hello_notify_queries}
use pg_plugins.Workers.Traces.{Exited}
use pg_plugins.Workers.Sigterm.{sigterm_ends_workers}

abbrev print_int : ℤ → Bytes
print_int _ = codes "7"

abbrev print_unsigned : ℕ → Bytes
print_unsigned n = (48 + n % 10) ∷ []

abbrev ended : KillIdle.Ended
ended = record { pid = pos 7; usename = some (codes "u"); datname = none; client_addr = none }

abbrev idle_round : List Signal → KillIdle.Wakeup
idle_round early = record {
  early = early;
  config_file = 9;
  answer = ok_select (ended ∷ []);
  late = [];
}

abbrev idle_rounds : List KillIdle.Wakeup
idle_rounds = idle_round [] ∷ idle_round (sighup ∷ []) ∷ []

-- The second round reads the configuration and has the query of the new interval.
kill_idle_test :
    (kill_idle_main print_int print_unsigned 5 (idle_rounds ++ idle_round (sigterm ∷ []) ∷ [])).1
    ≡ exits 0
unfolding kill_idle_main
kill_idle_test = refl

abbrev settings : HelloNotify.NotifySettings
settings = record { notify_nap_time = 6; notify_channel = codes "c" }

abbrev notify_round : List Signal → HelloNotify.Wakeup
notify_round early = record {
  early = early;
  config_file = settings;
  answer = ok_select [];
  late = [];
}

notify_fails_test :
    (hello_notify_main print_int print_unsigned settings
      (record (notify_round []) { answer = other_code (pos 3) } ∷ notify_round [] ∷ [])).1
    ≡ exits 1
unfolding hello_notify_main
notify_fails_test = refl

count_test :
    count_relations_main print_int (
      record { early = sigterm ∷ sighup ∷ []; answer = ok_select (pos 7 ∷ []); late = [] }
      ∷ record { early = []; answer = ok_select []; late = [] }
      ∷ [])
    ≡ (
      wait_latch 1000
          ∷ log (codes "got sighup")
          ∷ reset_latch
          ∷ start_transaction
          ∷ spi_connect
          ∷ push_snapshot
          ∷ execute (codes "SELECT count(*) FROM pg_class;")
          ∷ log (codes "Currently 7 relations in database")
          ∷ spi_finish
          ∷ pop_snapshot
          ∷ commit
          ∷ [],
      exits 0,
    )
unfolding count_relations_main
count_test = refl

hello_world_test : hello_world_main (false ∷ true ∷ false ∷ []) ≡ (
  wait_latch 10000
      ∷ reset_latch
      ∷ log (codes "Hello World!")
      ∷ wait_latch 10000
      ∷ reset_latch
      ∷ log (codes "Hello World!")
      ∷ [],
  exits 0,
)
unfolding hello_world_main
hello_world_test = refl

kill_idle_queries_example :
    AreCurrent print_int print_unsigned 5 (kill_idle_main print_int print_unsigned 5 idle_rounds).0
kill_idle_queries_example = kill_idle_queries print_int print_unsigned 5 idle_rounds

hello_notify_queries_example :
    ArePiled print_int print_unsigned
      (hello_notify_build_query print_int print_unsigned settings)
      (hello_notify_main print_int print_unsigned settings
        (notify_round [] ∷ notify_round (sighup ∷ []) ∷ [])).0
hello_notify_queries_example =
    hello_notify_queries print_int print_unsigned settings
      (notify_round [] ∷ notify_round (sighup ∷ []) ∷ [])

sigterm_ends_workers_example :
    Exited
      (kill_idle_main print_int print_unsigned 5 (idle_rounds ++ idle_round (sigterm ∷ []) ∷ [])).1
    × Exited
        (hello_notify_main print_int print_unsigned settings
          ([] ++ notify_round (sigterm ∷ []) ∷ [])).1
    × Exited (hello_signal_main ((sighup ∷ []) ∷ [] ++ (sighup ∷ sigterm ∷ []) ∷ [])).1
sigterm_ends_workers_example =
    sigterm_ends_workers print_int print_unsigned 5 idle_rounds [] (idle_round (sigterm ∷ []))
      settings [] [] (notify_round (sigterm ∷ [])) ((sighup ∷ []) ∷ []) [] (sighup ∷ sigterm ∷ [])
      refl refl refl
