-- ===== src/Workers/PiledQueries.antt =====
-- hello_notify/hello_notify.c: which queries are executed.
use pg_plugins.Base.{ℕ, ◌≡◌, refl, List, [], ◌∷◌, ◌++◌, Bytes, codes, Bool-cases, inl, inr}
use pg_plugins.Base.Int.{ℤ}
use pg_plugins.Workers.Loop.{
  Event, process_config, execute, log, SpiResult, ok_select, other_code, Step, again, exits,
}
use pg_plugins.Workers.Traces.{GoodStep, seq_GoodStep, if-GoodStep, rounds_good}
use pg_plugins.Workers.HelloNotify
use pg_plugins.Workers.HelloNotify.{
  hello_notify_signals, hello_notify_build_query, hello_notify_reload, hello_notify_query,
  hello_notify_awake, hello_notify_round, hello_notify_main,
}

module _ (print_int : ℤ → Bytes) (print_unsigned : ℕ → Bytes) where
  -- Each query executed is the text `piled`, to which each reload of the configuration appends the
  -- query of its settings.
  abbrev pub ArePiled : Bytes → List (Event HelloNotify.NotifySettings) → Type 0
  ArePiled piled [] = Unit
  ArePiled piled (process_config settings ∷ t) =
      ArePiled (piled ++ hello_notify_build_query print_int print_unsigned settings) t
  ArePiled piled (execute query ∷ t) = (query ≡ piled) × ArePiled piled t
  ArePiled piled (_ ∷ t) = ArePiled piled t

  abbrev buffer_of : HelloNotify.State → Bytes
  buffer_of s = s.buf

  abbrev Always : HelloNotify.State → Type 0
  Always s = Unit

  abbrev NotifyStep :
      Bytes → List (Event HelloNotify.NotifySettings) × Step HelloNotify.State → Type 0
  NotifyStep = GoodStep ArePiled buffer_of Always

  query-NotifyStep :
      (answer : SpiResult (Unit {0})) (s : HelloNotify.State)
      → NotifyStep s.buf (hello_notify_query print_int print_unsigned answer s)
  unfolding hello_notify_query
  query-NotifyStep (other_code code) s = (tt, λ t follows. (refl, follows s.buf))
  query-NotifyStep (ok_select rows) s = (tt, λ t follows. (refl, follows))

  reload-NotifyStep :
      (settings : HelloNotify.NotifySettings) (s : HelloNotify.State)
      → NotifyStep s.buf (
        (hello_notify_reload print_int print_unsigned settings s).0,
        again (hello_notify_reload print_int print_unsigned settings s).1,
      )
  unfolding hello_notify_reload
  reload-NotifyStep settings s = elim (Bool-cases s.flags.got_sighup) [
    | inr e ↦ rw e (tt, λ t follows. follows)
    | inl e ↦ rw e (tt, λ t follows. follows)
  ]

  awake-NotifyStep :
      (w : HelloNotify.Wakeup) (s : HelloNotify.State)
      → NotifyStep s.buf (hello_notify_awake print_int print_unsigned w s)
  unfolding hello_notify_awake
  awake-NotifyStep w s =
      let reloaded = hello_notify_reload print_int print_unsigned w.config_file s in
      let s2 = record reloaded.1 { flags = hello_notify_signals w.late reloaded.1.flags } in
      let first = reload-NotifyStep w.config_file s in
      let bye = log (codes "hello signal: processed SIGTERM, leaving...") ∷ [] in
      if-GoodStep ArePiled buffer_of Always s.buf reloaded.1.flags.got_sigterm _ _
        (seq_GoodStep ArePiled buffer_of Always s.buf reloaded.0 reloaded.1 (bye, exits 0) first
          (tt, λ t follows. follows reloaded.1.buf))
        (seq_GoodStep ArePiled buffer_of Always s.buf reloaded.0 reloaded.1
          (hello_notify_query print_int print_unsigned w.answer s2) first
          (query-NotifyStep w.answer s2))

  round-NotifyStep :
      (w : HelloNotify.Wakeup) (s : HelloNotify.State)
      → NotifyStep s.buf (hello_notify_round print_int print_unsigned w s)
  unfolding hello_notify_round
  round-NotifyStep w s =
      if-GoodStep ArePiled buffer_of Always s.buf s.flags.got_sigterm _ _
        (tt, λ t follows. follows s.buf)
        (awake-NotifyStep w (record s { flags = hello_notify_signals w.early s.flags }))

  -- Each query that hello_notify executes is the query of the first settings with the query of each
  -- later configuration behind it, one for each reload so far.
  pub hello_notify_queries :
      (settings : HelloNotify.NotifySettings) (ws : List HelloNotify.Wakeup)
      → ArePiled
          (hello_notify_build_query print_int print_unsigned settings)
          (hello_notify_main print_int print_unsigned settings ws).0
  unfolding hello_notify_main
  hello_notify_queries settings ws =
      rounds_good ArePiled buffer_of Always (hello_notify_round print_int print_unsigned)
        (λ w s _. round-NotifyStep w s) (λ i. tt) ws _ tt
