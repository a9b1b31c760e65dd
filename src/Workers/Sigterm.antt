-- ===== src/Workers/Sigterm.antt =====
-- kill_idle/kill_idle.c, hello_notify/hello_notify.c and hello_signal/hello_signal.c: the end of the
-- workers on SIGTERM.
use pg_plugins.Base.{
  ℕ, ◌≡◌, refl, Bool, true, false, List, [], ◌∷◌, ◌++◌, Bytes, inl, inr, ◌⊎◌, arith, if◌then◌else◌,
}
use pg_plugins.Base.Int.{ℤ}
use pg_plugins.Workers.Loop.{Signal, sighup, sigterm, Flags, Step, Event}
use pg_plugins.Workers.Traces.{Exited, rounds_exit}
use pg_plugins.Workers.KillIdle
use pg_plugins.Workers.KillIdle.{
  kill_idle_signals, kill_idle_reload, kill_idle_awake, kill_idle_round, kill_idle_main,
}
use pg_plugins.Workers.HelloNotify
use pg_plugins.Workers.HelloNotify.{
  hello_notify_signals, hello_notify_reload, hello_notify_awake, hello_notify_round,
  hello_notify_main,
}
use pg_plugins.Workers.Simple.{hello_signals, hello_signal_round, hello_signal_main}

abbrev pub has_sigterm : List Signal → Bool
has_sigterm [] = false
has_sigterm (sigterm ∷ ss) = true
has_sigterm (sighup ∷ ss) = has_sigterm ss

-- Both branches of a test end the process, the second one where the test fails.
if-Exited :
    {Config S : Type 0} (test : Bool) (r q : List (Event Config) × Step S)
    → Exited r.1
    → (test ≡ false → Exited q.1)
    → Exited (if test then r else q).1
if-Exited true r q ends other = ends
if-Exited false r q ends other = other refl

kill_idle_signals-sigterm :
    (ss : List Signal) (f : Flags)
    → (has_sigterm ss ≡ true) ⊎ (f.got_sigterm ≡ true)
    → (kill_idle_signals ss f).got_sigterm ≡ true
unfolding kill_idle_signals
kill_idle_signals-sigterm [] f (inl h) = ground arith
kill_idle_signals-sigterm [] f (inr h) = h
kill_idle_signals-sigterm (sigterm ∷ ss) f h = kill_idle_signals-sigterm ss _ (inr refl)
kill_idle_signals-sigterm (sighup ∷ ss) f h = kill_idle_signals-sigterm ss _ h

hello_notify_signals-sigterm :
    (ss : List Signal) (f : Flags)
    → (has_sigterm ss ≡ true) ⊎ (f.got_sigterm ≡ true)
    → (hello_notify_signals ss f).got_sigterm ≡ true
unfolding hello_notify_signals
hello_notify_signals-sigterm [] f (inl h) = ground arith
hello_notify_signals-sigterm [] f (inr h) = h
hello_notify_signals-sigterm (sigterm ∷ ss) f h = hello_notify_signals-sigterm ss _ (inr refl)
hello_notify_signals-sigterm (sighup ∷ ss) f h = hello_notify_signals-sigterm ss _ h

hello_signals-sigterm :
    (ss : List Signal) (f : Flags)
    → (has_sigterm ss ≡ true) ⊎ (f.got_sigterm ≡ true)
    → (hello_signals ss f).got_sigterm ≡ true
unfolding hello_signals
hello_signals-sigterm [] f (inl h) = ground arith
hello_signals-sigterm [] f (inr h) = h
hello_signals-sigterm (sigterm ∷ ss) f h = hello_signals-sigterm ss _ (inr refl)
hello_signals-sigterm (sighup ∷ ss) f h = hello_signals-sigterm ss _ h

module _ (print_int : ℤ → Bytes) (print_unsigned : ℕ → Bytes) where
  kill_idle_reload-sigterm :
      (w : KillIdle.Wakeup) (s : KillIdle.State)
      → s.flags.got_sigterm ≡ true
      → (kill_idle_reload print_int print_unsigned w.config_file s).1.flags.got_sigterm ≡ true
  unfolding kill_idle_reload
  kill_idle_reload-sigterm w s h = ground arith

  kill_idle_awake-Exited :
      (w : KillIdle.Wakeup) (s : KillIdle.State)
      → s.flags.got_sigterm ≡ true
      → Exited (kill_idle_awake print_int print_unsigned w s).1
  unfolding kill_idle_awake
  kill_idle_awake-Exited w s h =
      if-Exited (kill_idle_reload print_int print_unsigned w.config_file s).1.flags.got_sigterm _ _
        tt (λ up. absurd (ground (arith, kill_idle_reload-sigterm w s h)))

  kill_idle_round-Exited :
      (w : KillIdle.Wakeup) (s : KillIdle.State)
      → has_sigterm w.early ≡ true
      → Exited (kill_idle_round print_int print_unsigned w s).1
  unfolding kill_idle_round
  kill_idle_round-Exited w s h = if-Exited s.flags.got_sigterm _ _ tt (λ _.
      kill_idle_awake-Exited w (record s { flags = kill_idle_signals w.early s.flags })
        (kill_idle_signals-sigterm w.early s.flags (inl h)))

module _ (print_int : ℤ → Bytes) (print_unsigned : ℕ → Bytes) where
  hello_notify_reload-sigterm :
      (w : HelloNotify.Wakeup) (s : HelloNotify.State)
      → s.flags.got_sigterm ≡ true
      → (hello_notify_reload print_int print_unsigned w.config_file s).1.flags.got_sigterm ≡ true
  unfolding hello_notify_reload
  hello_notify_reload-sigterm w s h = ground arith

  hello_notify_awake-Exited :
      (w : HelloNotify.Wakeup) (s : HelloNotify.State)
      → s.flags.got_sigterm ≡ true
      → Exited (hello_notify_awake print_int print_unsigned w s).1
  unfolding hello_notify_awake
  hello_notify_awake-Exited w s h =
      if-Exited (hello_notify_reload print_int print_unsigned w.config_file s).1.flags.got_sigterm _
        _ tt (λ up. absurd (ground (arith, hello_notify_reload-sigterm w s h)))

  hello_notify_round-Exited :
      (w : HelloNotify.Wakeup) (s : HelloNotify.State)
      → has_sigterm w.early ≡ true
      → Exited (hello_notify_round print_int print_unsigned w s).1
  unfolding hello_notify_round
  hello_notify_round-Exited w s h = if-Exited s.flags.got_sigterm _ _ tt (λ _.
      hello_notify_awake-Exited w (record s { flags = hello_notify_signals w.early s.flags })
        (hello_notify_signals-sigterm w.early s.flags (inl h)))

hello_signal_round-Exited :
    (signals : List Signal) (f : Flags)
    → has_sigterm signals ≡ true
    → Exited (hello_signal_round signals f).1
unfolding hello_signal_round
hello_signal_round-Exited signals f h = rw (hello_signals-sigterm signals f (inl h)) tt

-- The workers kill_idle, hello_notify and hello_signal end: a run with a round in which SIGTERM has
-- come during the wait has ended, by that round at the latest, whatever comes before and after.
pub sigterm_ends_workers :
    (print_int : ℤ → Bytes) (print_unsigned : ℕ → Bytes) (interval : ℕ)
    (idle_before idle_after : List KillIdle.Wakeup) (idle : KillIdle.Wakeup)
    (settings : HelloNotify.NotifySettings) (notify_before notify_after : List HelloNotify.Wakeup)
    (notify : HelloNotify.Wakeup) (before after : List (List Signal)) (signals : List Signal)
    → has_sigterm idle.early ≡ true
    → has_sigterm notify.early ≡ true
    → has_sigterm signals ≡ true
    → Exited (kill_idle_main print_int print_unsigned interval (idle_before ++ idle ∷ idle_after)).1
      × Exited
          (hello_notify_main print_int print_unsigned settings
            (notify_before ++ notify ∷ notify_after)).1
      × Exited (hello_signal_main (before ++ signals ∷ after)).1
unfolding kill_idle_main hello_notify_main hello_signal_main
sigterm_ends_workers print_int print_unsigned interval idle_before idle_after idle settings
      notify_before notify_after notify before after signals h1 h2 h3 =
    (
      rounds_exit (kill_idle_round print_int print_unsigned) idle_before idle_after idle
          (λ s. kill_idle_round-Exited print_int print_unsigned idle s h1) _,
      rounds_exit (hello_notify_round print_int print_unsigned) notify_before notify_after notify
          (λ s. hello_notify_round-Exited print_int print_unsigned notify s h2) _,
      rounds_exit hello_signal_round before after signals
          (λ f. hello_signal_round-Exited signals f h3) _,
    )
