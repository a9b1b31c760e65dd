-- ===== src/ReceiverRaw/Rounds.antt =====
-- The outer loop of the worker: its transactions, what it confirms, and how it ends.
use pg_plugins.Base.{◌≡◌, refl, ◌∙◌, ap, true, false, [], ◌∷◌, ◌++◌, append_assoc, arith}
use pg_plugins.ReceiverRaw.Message.{
  start_transaction, commit, Worker, Outcome, next, exited, fault, act,
}
use pg_plugins.ReceiverRaw.Progress.{effects, batch_taken, receive_next}
use pg_plugins.ReceiverRaw.Loop.{
  on_signals, Finish, no_data, stream_ended, read_failed, Waited, timed_out, interrupted,
  select_failed, readable, Wakeup, receive, State, Run, running, stopped, undefined, reload,
  free_copybuf, after_batch, batch, round,
}

-- The state after the signals of the latch wait and a reload of the configuration.
abbrev pub ready : State → Wakeup → State
ready s u = reload u.config_file (record s { flags = on_signals s.flags u.early })

-- What a round that goes on has done after its reload: one transaction with all the messages.
abbrev pub committed : State → Wakeup → Worker
committed r u =
    act (batch_taken r.config.sync_mode (act r.worker start_transaction) u.deliveries) commit

pub after_batch_running :
    (f : Finish) (x : Waited) (s t : State) → after_batch f x s ≡ running t → t ≡ s
unfolding after_batch
after_batch_running no_data timed_out s t h = ground arith
after_batch_running no_data interrupted s t h = ground arith
after_batch_running no_data select_failed s t h = ground arith
after_batch_running no_data (readable true) s t h = ground arith
after_batch_running no_data (readable false) s t h = ground arith
after_batch_running stream_ended x s t h = ground arith
after_batch_running read_failed x s t h = ground arith

batch_running :
    (s : State) (u : Wakeup) (t : State) → batch s u ≡ running t → t.worker ≡ committed s u
unfolding batch
batch_running s u t h =
    go (receive s.config.sync_mode (act s.worker start_transaction) u.deliveries) refl
  where
    go :
        (o : Outcome)
        → receive s.config.sync_mode (act s.worker start_transaction) u.deliveries ≡ o
        → t.worker ≡ committed s u
    go (next w) e =
        ap (λ (x : State). x.worker)
          (after_batch_running u.finish u.waited (record s { worker = act w commit }) t
            (ground (arith, e)))
        ∙ ap (λ (v : Worker). act v commit) (receive_next _ _ _ w e)
    go (exited code w) e = absurd (ground (arith, e))
    go fault e = absurd (ground (arith, e))

round_running :
    (s : State) (u : Wakeup) (t : State)
    → round s u ≡ running t
    → t.worker ≡ committed (ready s u) u
unfolding round free_copybuf
round_running s u t h = go (batch (ready s u) u) refl
  where
    go : (o : Run) → batch (ready s u) u ≡ o → t.worker ≡ committed (ready s u) u
    go (running x) e = ground (arith, e, batch_running (ready s u) u x e)
    go (stopped code w) e = absurd (ground (arith, e))
    go undefined e = absurd (ground (arith, e))

-- A round that goes on has handled all its messages in one transaction: after a reload of the
-- configuration if SIGHUP came, it has started a transaction, done what each message asks for in
-- their order, and committed.
pub round_transaction :
    (s : State) (u : Wakeup) (t : State)
    → round s u ≡ running t
    → t.worker.trace
      ≡ (ready s u).worker.trace
        ++ (start_transaction
            ∷ effects (ready s u).config.sync_mode (ready s u).worker.positions u.deliveries)
        ++ commit ∷ []
round_transaction s u t h = ap (λ (w : Worker). w.trace) (round_running s u t h) ∙ simp append_assoc
