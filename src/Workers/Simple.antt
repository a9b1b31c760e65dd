-- ===== src/Workers/Simple.antt =====
-- count_relations/count_relations.c, hello_signal/hello_signal.c and hello_world/hello_world.c: the
-- loops of the workers without settings of their own.
use pg_plugins.Base.{Bool, true, false, List, [], ◌∷◌, ◌++◌, Bytes, codes, if◌then◌else◌}
use pg_plugins.Base.Int.{ℤ}
use pg_plugins.Workers.Loop.{
  Signal, sighup, sigterm, Flags, SpiResult, ok_select, other_code, Event, wait_latch, reset_latch,
  start_transaction, spi_connect, push_snapshot, process_config, execute, log, spi_finish,
  pop_snapshot, commit, Step, again, exits, rounds,
}

-- count_relations_sigterm and count_relations_sighup, which only logs, on got_sigterm.
unfoldable pub count_relations_signals : List Signal → Bool → List (Event (Unit {0})) × Bool
count_relations_signals [] got_sigterm = ([], got_sigterm)
count_relations_signals (sigterm ∷ ss) got_sigterm = count_relations_signals ss true
count_relations_signals (sighup ∷ ss) got_sigterm =
    let rest = count_relations_signals ss got_sigterm in (log (codes "got sighup") ∷ rest.0, rest.1)

-- The signals during the wait and behind it, and the answer to the query: the counts selected.
pub record CountWakeup : Type 0 where
  pub early : List Signal
  pub answer : SpiResult ℤ
  pub late : List Signal

module _ (print_int : ℤ → Bytes) where
  -- `if (SPI_processed > 0)`: the first row is logged.
  unfoldable pub log_count : List ℤ → List (Event (Unit {0}))
  log_count [] = []
  log_count (count ∷ _) =
      log (codes "Currently " ++ print_int count ++ codes " relations in database") ∷ []

  unfoldable pub count_relations_query : SpiResult ℤ → Bool → List (Event (Unit {0})) × Step Bool
  unfolding log_count
  count_relations_query answer got_sigterm =
      let begins =
        start_transaction
        ∷ spi_connect
        ∷ push_snapshot
        ∷ execute (codes "SELECT count(*) FROM pg_class;")
        ∷ [] in
      elim answer [
        | other_code code ↦ (
          begins ++ log (codes "SPI_execute failed: error code " ++ print_int code) ∷ [],
          exits 1,
        )
        | ok_select counts ↦ (
          begins ++ (log_count counts ++ spi_finish ∷ pop_snapshot ∷ commit ∷ []),
          again got_sigterm,
        )
      ]

  -- One round, from the test of the loop on.
  unfoldable pub count_relations_round : CountWakeup → Bool → List (Event (Unit {0})) × Step Bool
  unfolding count_relations_query count_relations_signals
  count_relations_round w true = ([], exits 0)
  count_relations_round w false =
      let woken = count_relations_signals w.early false in
      let later = count_relations_signals w.late woken.1 in
      let queried = count_relations_query w.answer later.1 in
      (wait_latch 1000 ∷ (woken.0 ++ reset_latch ∷ (later.0 ++ queried.0)), queried.1)

  -- count_relations_main, behind the connection.
  unfoldable pub count_relations_main : List CountWakeup → List (Event (Unit {0})) × Step Bool
  unfolding rounds count_relations_round
  count_relations_main ws = rounds count_relations_round ws false

-- hello_sigterm and hello_sighup of hello_signal.
unfoldable pub hello_signals : List Signal → Flags → Flags
hello_signals [] f = f
hello_signals (sigterm ∷ ss) f = hello_signals ss (record f { got_sigterm = true })
hello_signals (sighup ∷ ss) f = hello_signals ss (record f { got_sighup = true })

-- One round of hello_signal: the wait, then the tests of the signals that have come.
unfoldable pub hello_signal_round : List Signal → Flags → List (Event (Unit {0})) × Step Flags
unfolding hello_signals
hello_signal_round signals f =
    let f1 = hello_signals signals f in
    let reloads =
      if f1.got_sighup
      then process_config tt ∷ log (codes "hello signal: processed SIGHUP") ∷ []
      else [] in
    let waits = wait_latch 1000 ∷ reset_latch ∷ reloads in
    if f1.got_sigterm
    then (waits ++ log (codes "hello signal: processed SIGTERM") ∷ [], exits 0)
    else (waits, again (record f1 { got_sighup = false }))

-- hello_main of hello_signal.
unfoldable pub hello_signal_main : List (List Signal) → List (Event (Unit {0})) × Step Flags
unfolding rounds hello_signal_round
hello_signal_main ws =
    rounds hello_signal_round ws (record { got_sigterm = false; got_sighup = false })

-- One round of hello_world, where an element of the script says whether SIGTERM came during the wait.
unfoldable pub hello_world_round :
    (sigterm_came : Bool) → Bool → List (Event (Unit {0})) × Step Bool
hello_world_round sigterm_came true = ([], exits 0)
hello_world_round sigterm_came false =
    (wait_latch 10000 ∷ reset_latch ∷ log (codes "Hello World!") ∷ [], again sigterm_came)

-- hello_main of hello_world.
unfoldable pub hello_world_main : List Bool → List (Event (Unit {0})) × Step Bool
unfolding rounds hello_world_round
hello_world_main ws = rounds hello_world_round ws false
