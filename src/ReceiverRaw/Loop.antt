-- ===== src/ReceiverRaw/Loop.antt =====
-- receiver_raw/receiver_raw.c: the loops of `receiver_raw_main`, the signal handlers, and the wait
-- for data. What the environment decides is a script: a list of `Wakeup`, one for each round.
use pg_plugins.Base.{
  ℕ, ◌-◌, ◌/◌, ◌%◌, Bool, true, false, Option, none, some, List, [], ◌∷◌, ltb, if◌then◌else◌,
}
use pg_plugins.Base.Int.{ℤ, pos, negsuc, ◌-ℤ◌}
use pg_plugins.ReceiverRaw.Message.{
  Worker, start_transaction, commit, reload_config, Delivery, Outcome, next, exited, fault, act,
  handle,
}

pub data Signal : Type 0 where
  sighup sigterm : Signal

-- `got_sigterm` and `got_sighup`.
pub record Flags : Type 0 where
  pub got_sigterm : Bool
  pub got_sighup : Bool

-- receiver_raw_sigterm, receiver_raw_sighup
unfoldable pub on_signal : Flags → Signal → Flags
on_signal f sigterm = record f { got_sigterm = true }
on_signal f sighup = record f { got_sighup = true }

unfoldable pub on_signals : Flags → List Signal → Flags
unfolding on_signal
on_signals f [] = f
on_signals f (s ∷ ss) = on_signals (on_signal f s) ss

-- The result of PQgetCopyData that ends the inner loop: 0, -1, -2.
pub data Finish : Type 0 where
  no_data stream_ended read_failed : Finish

-- The result of select, and of PQconsumeInput where there is data.
pub data Waited : Type 0 where
  timed_out interrupted select_failed : Waited
  readable : Bool → Waited

-- The variables that SIGHUP may change.
pub record Config : Type 0 where
  pub idle_time : ℕ
  pub sync_mode : Bool

-- What one round meets: signals during the latch wait and after the tests, the configuration file,
-- the messages at hand, what ends them, and the wait for more.
pub record Wakeup : Type 0 where
  pub early : List Signal
  pub config_file : Config
  pub deliveries : List Delivery
  pub finish : Finish
  pub waited : Waited
  pub late : List Signal

-- The inner loop, up to its `break`.
unfoldable pub receive : Bool → Worker → List Delivery → Outcome
receive sync_mode w [] = next w
receive sync_mode w (d ∷ ds) = elim (handle sync_mode w d) [
  | next w' ↦ receive sync_mode w' ds
  | exited code w' ↦ exited code w'
  | fault ↦ fault
]

pub record State : Type 0 where
  pub flags : Flags
  pub config : Config
  pub worker : Worker

-- A run goes on, has ended by proc_exit, or has read past a message.
pub data Run : Type 0 where
  running : State → Run
  stopped : ℕ → Worker → Run
  undefined : Run

-- The `if (got_sighup)` block.
unfoldable pub reload : Config → State → State
reload config_file s =
    if s.flags.got_sighup
    then record {
      flags = record { got_sigterm = s.flags.got_sigterm; got_sighup = false };
      config = config_file;
      worker = act s.worker reload_config;
    }
    else s

-- `copybuf` is a variable of the round, so it is NULL here.
unfoldable pub free_copybuf : Option ℕ → Worker → Worker
free_copybuf none w = w
free_copybuf (some _) w = record w { outstanding = w.outstanding - 1 }

-- What follows the commit: the wait for data, or the end of the stream.
unfoldable pub after_batch : Finish → Waited → State → Run
after_batch no_data timed_out s = running s
after_batch no_data interrupted s = running s
after_batch no_data select_failed s = stopped 1 s.worker
after_batch no_data (readable true) s = running s
after_batch no_data (readable false) s = stopped 1 s.worker
after_batch stream_ended waited s = stopped 0 s.worker
after_batch read_failed waited s = stopped 1 s.worker

-- The transaction around the inner loop.
unfoldable pub batch : State → Wakeup → Run
batch s u = elim (receive s.config.sync_mode (act s.worker start_transaction) u.deliveries) [
  | next w ↦ after_batch u.finish u.waited (record s { worker = act w commit })
  | exited code w ↦ stopped code w
  | fault ↦ undefined
]

-- One round of the outer loop; signals that come later are seen at its next test.
unfoldable pub round : State → Wakeup → Run
round s u =
    let s' = reload u.config_file (record s { flags = on_signals s.flags u.early }) in
    if s'.flags.got_sigterm
    then stopped 0 s'.worker
    else (elim (batch (record s' { worker = free_copybuf none s'.worker }) u) [
      | running t ↦ running (record t { flags = on_signals t.flags u.late })
      | stopped code w ↦ stopped code w
      | undefined ↦ undefined
    ])

-- `while (!got_sigterm)`; the exit after the loop has code 0.
unfoldable pub main_loop : State → List Wakeup → Run
main_loop s [] = if s.flags.got_sigterm then stopped 0 s.worker else running s
main_loop s (u ∷ us) =
    let rest : Run = elim (round s u) [
      | running t ↦ main_loop t us
      | stopped code w ↦ stopped code w
      | undefined ↦ undefined
    ] in
    if s.flags.got_sigterm then stopped 0 s.worker else rest

-- feTimestampDifference: seconds and microseconds from `start_time` to `stop_time`, 0 if none.
unfoldable pub fe_timestamp_difference : ℤ → ℤ → ℕ × ℕ
fe_timestamp_difference start_time stop_time = elim (stop_time -ℤ start_time) [
  | pos diff ↦ (diff / 1000000, diff % 1000000)
  | negsuc _ ↦ (0, 0)
]

-- The timeout of the select: `message_target` and `fsync_target` are 0 and stay so.
unfoldable pub select_timeout : ℤ → ℕ × ℕ
unfolding fe_timestamp_difference
select_timeout now =
    let (secs, usecs) = fe_timestamp_difference now (pos 0) in
    (if ltb 0 secs then secs else 1, usecs)
