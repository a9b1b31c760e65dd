-- ===== src/Replication/Replayed.antt =====
-- receiver_raw/receiver_raw.c: one round on the messages that carry some texts.
use pg_plugins.Base.{◌≡◌, ap, ◌∙◌, false, List, [], ◌∷◌, ◌++◌, Bytes, arith, append_assoc}
use pg_plugins.ReceiverRaw.Message.{Action, start_transaction, commit, act}
use pg_plugins.ReceiverRaw.Loop.{
  Wakeup, no_data, timed_out, State, running, round, batch, after_batch, free_copybuf, on_signals,
}
use pg_plugins.ReceiverRaw.Rounds.{ready}
use pg_plugins.Replication.Stream.{Carries, AreSendable, executed, IsWithin, receive-Carries}

-- The round goes on, and has executed the texts in one transaction.
abbrev pub Replays : State → Wakeup → List Bytes → Type 0
Replays st u ts =
    (t : State) × (body : List Action) × (round st u ≡ running t)
    × (t.worker.trace ≡ (ready st u).worker.trace ++ (start_transaction ∷ body) ++ commit ∷ [])
    × (executed body ≡ ts)
    × IsWithin body

-- A round whose messages carry some texts executes them in one transaction, and goes on.
pub round-Carries :
    (st : State) (u : Wakeup) (ts : List Bytes)
    → (ready st u).flags.got_sigterm ≡ false
    → u.finish ≡ no_data
    → u.waited ≡ timed_out
    → Carries ts u.deliveries
    → AreSendable ts
    → Replays st u ts
unfolding round batch after_batch free_copybuf
round-Carries st u ts quiet nothing_more times_out carries sendable =
    let s' = ready st u in
    let (w, received, (body, trace, runs, within)) =
      receive-Carries s'.config.sync_mode (act s'.worker start_transaction) carries sendable in
    let t : State = record s' { worker = act w commit } in
    (
      record t { flags = on_signals t.flags u.late },
      body,
      ground (arith, received),
      ap (λ actions. actions ++ commit ∷ []) trace ∙ simp append_assoc,
      runs,
      within,
    )
