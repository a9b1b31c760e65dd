-- ===== src/ReceiverRaw/Tests.antt =====
-- Runs of the receiver, and its theorems at concrete inputs.
use pg_plugins.Base.{
  ℕ, ◌≤◌, ◌<◌, ◌≡◌, ◌↔◌, ◌⊎◌, refl, true, false, some, [], ◌∷◌, ◌++◌, arith, Bytes, codes,
}
use pg_plugins.Base.Int.{pos, negsuc, ◌-ℤ◌}
use pg_plugins.ReceiverRaw.Wire.{fe_recvint64}
use pg_plugins.ReceiverRaw.Message.{
  execute, start_transaction, commit, send, Delivery, Worker, next, fault, handle, c_string,
  feedback_packet, fe_get_current_timestamp, advance,
}
use pg_plugins.ReceiverRaw.Branches.{handle_fault, kind_of}
use pg_plugins.ReceiverRaw.Feedback.{Decodes, feedback_packet-Decodes}
use pg_plugins.ReceiverRaw.Loop.{
  sighup, sigterm, Wakeup, no_data, read_failed, timed_out, receive, State, running, stopped, round,
  main_loop, on_signals, reload, batch, after_batch, free_copybuf, fe_timestamp_difference,
}
use pg_plugins.ReceiverRaw.Progress.{AllLe, AreLevel, receive_progress, effects}
use pg_plugins.ReceiverRaw.Exit.{Terminates, main_loop_exit, sigterm_stops}
use pg_plugins.ReceiverRaw.Rounds.{ready, round_transaction}

-- A streaming message: the start, the end and the time, then the query.
abbrev insert_message : Bytes
insert_message = b'w' ∷ (be64 100 ++ (be64 200 ++ (be64 0 ++ codes "INSERT")))
  where
    be64 : ℕ → Bytes
    be64 n = 0 ∷ 0 ∷ 0 ∷ 0 ∷ 0 ∷ 0 ∷ 0 ∷ n ∷ []

abbrev keepalive_message : Bytes
keepalive_message = b'k' ∷ 0 ∷ 0 ∷ 0 ∷ 0 ∷ 0 ∷ 0 ∷ 0 ∷ 150 ∷ 0 ∷ 0 ∷ 0 ∷ 0 ∷ 0 ∷ 0 ∷ 0 ∷ 0 ∷ 1 ∷ []

abbrev deliver : Bytes → Delivery
deliver m = record {
  copybuf = m;
  clock = record { tv_sec = 1000000000; tv_usec = 5 };
  feedback_ok = true;
  executes = true;
}

abbrev fresh : Worker
fresh = record {
  positions = record { written = 0; fsync = 0; applied = 0 };
  outstanding = 0;
  trace = [];
}

abbrev idle : State
idle = record {
  flags = record { got_sigterm = false; got_sighup = false };
  config = record { idle_time = 100; sync_mode = true };
  worker = fresh;
}

abbrev busy : Wakeup
busy = record {
  early = [];
  config_file = record { idle_time = 100; sync_mode = true };
  deliveries = deliver insert_message ∷ deliver keepalive_message ∷ [];
  finish = no_data;
  waited = timed_out;
  late = [];
}

abbrev broken : Wakeup
broken = record busy { finish = read_failed }

abbrev after_busy : Worker
after_busy = record {
  positions = record { written = 200; fsync = 200; applied = 200 };
  outstanding = 2;
  trace =
      execute (codes "INSERT")
      ∷ send (feedback_packet (record { written = 200; fsync = 200; applied = 200 }) 53315200000005)
      ∷ [];
}

batch_runs : receive true fresh busy.deliveries ≡ next after_busy
unfolding receive handle fe_recvint64 advance c_string fe_get_current_timestamp
batch_runs = refl

handle_fault_example : (handle true fresh (deliver (codes "kxyz")) ≡ fault) ↔ (
    ((kind_of (codes "kxyz") ≡ some b'k') × (4 < 8))
    ⊎ ((kind_of (codes "kxyz") ≡ some b'w') × (4 < 16)))
handle_fault_example = handle_fault true fresh (deliver (codes "kxyz"))

feedback_packet-Decodes_example :
    Decodes (feedback_packet after_busy.positions 7) after_busy.positions 7
feedback_packet-Decodes_example =
    feedback_packet-Decodes after_busy.positions 7 (omega arith) (omega arith) (omega arith)
      (omega arith)

receive_progress_example :
    (0 ≤ 200)
    × AllLe 200 busy.deliveries
    × (AreLevel fresh.positions → AreLevel after_busy.positions)
receive_progress_example = receive_progress true fresh busy.deliveries after_busy batch_runs

abbrev after_round : State
after_round = record idle {
  worker = record after_busy { trace = (start_transaction ∷ after_busy.trace) ++ commit ∷ [] };
}

round_runs : round idle busy ≡ running after_round
unfolding round on_signals reload batch after_batch free_copybuf receive handle fe_recvint64 advance
    c_string fe_get_current_timestamp
round_runs = refl

round_transaction_example :
    after_round.worker.trace
    ≡ (ready idle busy).worker.trace
      ++ (start_transaction
          ∷ effects
              (ready idle busy).config.sync_mode
              (ready idle busy).worker.positions
              busy.deliveries)
      ++ commit ∷ []
round_transaction_example = round_transaction idle busy after_round round_runs

abbrev broken_end : Worker
broken_end = record after_busy { trace = (start_transaction ∷ after_busy.trace) ++ commit ∷ [] }

broken_runs : main_loop idle (broken ∷ []) ≡ stopped 1 broken_end
unfolding main_loop round on_signals reload batch after_batch free_copybuf receive handle
    fe_recvint64 advance c_string fe_get_current_timestamp
broken_runs = refl

main_loop_exit_example : ◌≡◌ {A = ℕ} 1 1
main_loop_exit_example =
    main_loop_exit idle (broken ∷ []) 1 broken_end refl (tt, tt, (cc), tt) broken_runs

sigterm_stops_example :
    Terminates idle (busy ∷ []) (record busy { early = sighup ∷ sigterm ∷ [] }) (busy ∷ [])
sigterm_stops_example =
    sigterm_stops idle (busy ∷ []) (record busy { early = sighup ∷ sigterm ∷ [] }) (busy ∷ []) tt

fe_timestamp_runs :
    (fe_timestamp_difference (pos 5) (pos 3000005) ≡ (3, 0))
    × (fe_timestamp_difference (pos 5) (negsuc 0) ≡ (0, 0))
unfolding fe_timestamp_difference ◌-ℤ◌
fe_timestamp_runs = (refl, refl)
