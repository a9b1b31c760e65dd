-- ===== src/ReceiverRaw/Exit.antt =====
-- How the worker ends.
use pg_plugins.Base.{
  ℕ, ◌≡◌, ◌≢◌, ◌⊎◌, inl, inr, Bool-cases, refl, ◌∙◌, ap, true, false, List, [], ◌∷◌, ◌++◌,
  append-nil, arith, if◌then◌else◌,
}
use pg_plugins.ReceiverRaw.Message.{
  start_transaction, commit, reload_config, Worker, Outcome, next, exited, fault, act,
}
use pg_plugins.ReceiverRaw.Branches.{receive_exit}
use pg_plugins.ReceiverRaw.Rounds.{ready, after_batch_running}
use pg_plugins.ReceiverRaw.Loop.{
  Signal, sighup, sigterm, Flags, on_signal, on_signals, Finish, no_data, stream_ended, read_failed,
  Waited, timed_out, interrupted, select_failed, readable, Wakeup, receive, State, Run, running,
  stopped, undefined, reload, free_copybuf, after_batch, batch, round, main_loop,
}

-- No SIGTERM in a list of signals.
abbrev pub NoTerm : List Signal → Type 0
NoTerm [] = Unit
NoTerm (sighup ∷ ss) = NoTerm ss
NoTerm (sigterm ∷ ss) = ⊥

-- No SIGTERM comes, and the stream does not end.
abbrev pub Endless : List Wakeup → Type 0
Endless [] = Unit
Endless (u ∷ us) = NoTerm u.early × NoTerm u.late × (u.finish ≢ stream_ended) × Endless us

pub on_signals-NoTerm :
    (f : Flags) (ss : List Signal) → NoTerm ss → (on_signals f ss).got_sigterm ≡ f.got_sigterm
unfolding on_signals
on_signals-NoTerm f [] h = refl
on_signals-NoTerm f (sighup ∷ ss) h = on_signals-NoTerm (on_signal f sighup) ss h
on_signals-NoTerm f (sigterm ∷ ss) h = absurd h

pub flags_ready :
    (s : State) (u : Wakeup)
    → (ready s u).flags.got_sigterm ≡ (on_signals s.flags u.early).got_sigterm
unfolding reload
flags_ready s u = ground arith

after_batch_stopped :
    (f : Finish) (x : Waited) (s : State) (code : ℕ) (w : Worker)
    → f ≢ stream_ended
    → after_batch f x s ≡ stopped code w
    → code ≡ 1
unfolding after_batch
after_batch_stopped no_data timed_out s code w n h = absurd (ground arith)
after_batch_stopped no_data interrupted s code w n h = absurd (ground arith)
after_batch_stopped no_data select_failed s code w n h = ground arith
after_batch_stopped no_data (readable true) s code w n h = absurd (ground arith)
after_batch_stopped no_data (readable false) s code w n h = ground arith
after_batch_stopped stream_ended x s code w n h = absurd (n refl)
after_batch_stopped read_failed x s code w n h = ground arith

batch_stopped :
    (s : State) (u : Wakeup) (code : ℕ) (w : Worker)
    → u.finish ≢ stream_ended
    → batch s u ≡ stopped code w
    → code ≡ 1
unfolding batch
batch_stopped s u code w n h =
    go (receive s.config.sync_mode (act s.worker start_transaction) u.deliveries) refl
  where
    go :
        (o : Outcome)
        → receive s.config.sync_mode (act s.worker start_transaction) u.deliveries ≡ o
        → code ≡ 1
    go (next v) e =
        after_batch_stopped u.finish u.waited (record s { worker = act v commit }) code w n
          (ground (arith, e))
    go (exited c v) e = ground (arith, e, receive_exit _ _ _ c v e)
    go fault e = absurd (ground (arith, e))

-- What a round makes of a worker that no SIGTERM reached.
round_endless :
    (s : State) (u : Wakeup) (code : ℕ) (w : Worker)
    → s.flags.got_sigterm ≡ false
    → NoTerm u.early
    → u.finish ≢ stream_ended
    → round s u ≡ stopped code w
    → code ≡ 1
unfolding round free_copybuf
round_endless s u code w off early n h = go (batch (ready s u) u) refl
  where
    go : (o : Run) → batch (ready s u) u ≡ o → code ≡ 1
    go (running x) e =
        absurd (ground (arith, e, flags_ready s u, on_signals-NoTerm s.flags u.early early))
    go (stopped c v) e = ground (
      arith,
      e,
      flags_ready s u,
      on_signals-NoTerm s.flags u.early early,
      batch_stopped (ready s u) u c v n e,
    )
    go undefined e =
        absurd (ground (arith, e, flags_ready s u, on_signals-NoTerm s.flags u.early early))

batch_flags : (s : State) (u : Wakeup) (t : State) → batch s u ≡ running t → t.flags ≡ s.flags
unfolding batch
batch_flags s u t h =
    go (receive s.config.sync_mode (act s.worker start_transaction) u.deliveries) refl
  where
    go :
        (o : Outcome)
        → receive s.config.sync_mode (act s.worker start_transaction) u.deliveries ≡ o
        → t.flags ≡ s.flags
    go (next w) e =
        ap (λ (x : State). x.flags)
          (after_batch_running u.finish u.waited (record s { worker = act w commit }) t
            (ground (arith, e)))
    go (exited code w) e = absurd (ground (arith, e))
    go fault e = absurd (ground (arith, e))

-- A round that no SIGTERM reached leaves the flag down.
pub round_quiet :
    (s : State) (u : Wakeup) (t : State)
    → s.flags.got_sigterm ≡ false
    → NoTerm u.early
    → NoTerm u.late
    → round s u ≡ running t
    → t.flags.got_sigterm ≡ false
unfolding round free_copybuf
round_quiet s u t off early late h = go (batch (ready s u) u) refl
  where
    stays : (ready s u).flags.got_sigterm ≡ false
    stays = flags_ready s u ∙ on_signals-NoTerm s.flags u.early early ∙ off

    go : (o : Run) → batch (ready s u) u ≡ o → t.flags.got_sigterm ≡ false
    go (running x) e =
        ground
          (arith, e, stays, on_signals-NoTerm x.flags u.late late, batch_flags (ready s u) u x e)
    go (stopped c v) e = absurd (ground (arith, e, stays))
    go undefined e = absurd (ground (arith, e, stays))

-- The worker exits with code 0 only on SIGTERM or at the end of the stream: where neither comes and
-- the flag is down at the start, a run that stops has code 1.
pub main_loop_exit :
    (s : State) (us : List Wakeup) (code : ℕ) (w : Worker)
    → s.flags.got_sigterm ≡ false
    → Endless us
    → main_loop s us ≡ stopped code w
    → code ≡ 1
unfolding main_loop
main_loop_exit s [] code w off e h = absurd (ground arith)
main_loop_exit s (u ∷ us) code w off (early, late, n, later) h =
    go (round s u) refl (λ t quiet. main_loop_exit t us code w quiet later)
  where
    go :
        (o : Run)
        → round s u ≡ o
        → ((t : State) → t.flags.got_sigterm ≡ false → main_loop t us ≡ stopped code w → code ≡ 1)
        → code ≡ 1
    go (running t) e rest = rest t (round_quiet s u t off early late e) (ground (arith, e))
    go (stopped c v) e rest = ground (arith, e, round_endless s u c v off early n e)
    go undefined e rest = absurd (ground (arith, e))

-- A SIGTERM in a list of signals.
abbrev pub HasTerm : List Signal → Type 0
HasTerm [] = ⊥
HasTerm (sighup ∷ ss) = HasTerm ss
HasTerm (sigterm ∷ ss) = Unit

on_signals-kept :
    (f : Flags) (ss : List Signal) → f.got_sigterm ≡ true → (on_signals f ss).got_sigterm ≡ true
unfolding on_signals
on_signals-kept f [] h = h
on_signals-kept f (sighup ∷ ss) h = on_signals-kept (on_signal f sighup) ss h
on_signals-kept f (sigterm ∷ ss) h = on_signals-kept (on_signal f sigterm) ss refl

on_signals-HasTerm :
    (f : Flags) (ss : List Signal) → HasTerm ss → (on_signals f ss).got_sigterm ≡ true
unfolding on_signals
on_signals-HasTerm f [] h = absurd h
on_signals-HasTerm f (sighup ∷ ss) h = on_signals-HasTerm (on_signal f sighup) ss h
on_signals-HasTerm f (sigterm ∷ ss) h = on_signals-kept (on_signal f sigterm) ss refl

-- The worker that the round of a SIGTERM leaves.
abbrev pub terminated : State → Wakeup → Worker
terminated t u = record t.worker {
  trace =
      t.worker.trace
      ++ (if (on_signals t.flags u.early).got_sighup then reload_config ∷ [] else []);
}

terminated_lem :
    (s : State) (u : Wakeup) (later : List Wakeup)
    → s.flags.got_sigterm ≡ false
    → (on_signals s.flags u.early).got_sigterm ≡ true
    → main_loop s (u ∷ later) ≡ stopped 0 (terminated s u)
unfolding main_loop round reload
terminated_lem s u later off up = ground (arith, append-nil s.worker.trace)

-- How the rounds in front end, with the round of a SIGTERM and any others behind them.
abbrev pub Terminates : State → List Wakeup → Wakeup → List Wakeup → Type 0
Terminates s us u later =
    ((t : State) × (main_loop s us ≡ running t)
      × (main_loop s (us ++ u ∷ later) ≡ stopped 0 (terminated t u)))
    ⊎ (((t : State) → main_loop s us ≢ running t)
        × (main_loop s (us ++ u ∷ later) ≡ main_loop s us))

-- A SIGTERM that comes in the latch wait of a round, whatever the rounds before and after it are:
-- where the rounds before leave the worker running, it stops with code 0 in that round, which does
-- nothing more than reload the configuration where a SIGHUP came too; where they do not, the worker
-- has ended as they alone end it. The rounds after it make no difference.
pub sigterm_stops :
    (s : State) (us : List Wakeup) (u : Wakeup) (later : List Wakeup)
    → HasTerm u.early
    → Terminates s us u later
unfolding main_loop
sigterm_stops s [] u later term = elim (Bool-cases s.flags.got_sigterm) [
  | inl up ↦ inr (λ t e. absurd (ground arith), ground arith)
  | inr down ↦
      inl (s, ground arith, terminated_lem s u later down (on_signals-HasTerm s.flags u.early term))
]
sigterm_stops s (v ∷ us) u later term = elim (Bool-cases s.flags.got_sigterm) [
  | inl up ↦ inr (λ t e. absurd (ground arith), ground arith)
  | inr down ↦ go (round s v) refl down (λ t. sigterm_stops t us u later term)
]
  where
    go :
        (o : Run)
        → round s v ≡ o
        → s.flags.got_sigterm ≡ false
        → ((t : State) → Terminates t us u later)
        → Terminates s (v ∷ us) u later
    go (running t) e down rest = elim (rest t) [
      | inl (x, before, after) ↦ inl (x, ground (arith, e), ground (arith, e))
      | inr (before, after) ↦ inr (λ x e'. before x (ground (arith, e)), ground (arith, e, after))
    ]
    go (stopped c w) e down rest = inr (λ x e'. absurd (ground (arith, e)), ground (arith, e))
    go undefined e down rest = inr (λ x e'. absurd (ground (arith, e)), ground (arith, e))
