-- ===== src/Workers/Queries.antt =====
-- kill_idle/kill_idle.c: which queries are executed.
use pg_plugins.Base.{
  ℕ, ◌≡◌, refl, List, [], ◌∷◌, ◌++◌, Bytes, codes, Bool-cases, inl, inr, ◌==◌, ==_iff, ap, ◌∙◌,
  append_assoc,
}
use pg_plugins.Base.Int.{ℤ}
use pg_plugins.Workers.Loop.{
  Event, process_config, execute, log, SpiResult, ok_select, other_code, Step, again, exits,
}
use pg_plugins.Workers.Traces.{GoodStep, seq_GoodStep, if-GoodStep, rounds_good}
use pg_plugins.Workers.KillIdle
use pg_plugins.Workers.KillIdle.{
  kill_idle_signals, kill_idle_build_query, kill_idle_reload, disconnected, kill_idle_query,
  kill_idle_awake, kill_idle_round, kill_idle_main,
}

module _ (print_int : ℤ → Bytes) (print_unsigned : ℕ → Bytes) where
  -- Each query executed is that of the interval in force, which each reload of the configuration sets.
  abbrev pub AreCurrent : ℕ → List (Event ℕ) → Type 0
  AreCurrent interval [] = Unit
  AreCurrent interval (process_config config ∷ t) = AreCurrent config t
  AreCurrent interval (execute query ∷ t) =
      (query ≡ kill_idle_build_query print_int print_unsigned interval) × AreCurrent interval t
  AreCurrent interval (_ ∷ t) = AreCurrent interval t

  abbrev HasQuery : KillIdle.State → Type 0
  HasQuery s = s.buf ≡ kill_idle_build_query print_int print_unsigned s.kill_max_idle_time

  abbrev interval_of : KillIdle.State → ℕ
  interval_of s = s.kill_max_idle_time

  abbrev KillStep : ℕ → List (Event ℕ) × Step KillIdle.State → Type 0
  KillStep = GoodStep AreCurrent interval_of HasQuery

  disconnected-AreCurrent :
      (es : List KillIdle.Ended) (interval : ℕ) (t : List (Event ℕ))
      → AreCurrent interval t
      → AreCurrent interval (disconnected print_int print_unsigned es ++ t)
  unfolding disconnected
  disconnected-AreCurrent [] interval t h = h
  disconnected-AreCurrent (e ∷ es) interval t h = disconnected-AreCurrent es interval t h

  query-KillStep :
      (answer : SpiResult KillIdle.Ended) (s : KillIdle.State)
      → HasQuery s
      → KillStep s.kill_max_idle_time (kill_idle_query print_int print_unsigned answer s)
  unfolding kill_idle_query
  query-KillStep (other_code code) s h = (tt, λ t follows. (h, follows s.kill_max_idle_time))
  query-KillStep (ok_select ended) s h = (
    h,
    λ t follows. (
      h,
      rw (append_assoc (disconnected print_int print_unsigned ended) _ t)
          (disconnected-AreCurrent ended s.kill_max_idle_time _ follows),
    ),
  )

  -- What a reload leaves, and its events in front of others.
  reload-KillStep :
      (config : ℕ) (s : KillIdle.State)
      → HasQuery s
      → KillStep s.kill_max_idle_time (
        (kill_idle_reload print_int print_unsigned config s).0,
        again (kill_idle_reload print_int print_unsigned config s).1,
      )
  unfolding kill_idle_reload
  reload-KillStep config s h = elim (Bool-cases s.flags.got_sighup) [
    | inr e ↦ rw e (h, λ t follows. follows)
    | inl e ↦ elim (Bool-cases (s.kill_max_idle_time == config)) [
      | inl same ↦
          rw (e, same)
            (
              h
                  ∙ ap (λ (n : ℕ). kill_idle_build_query print_int print_unsigned n)
                      ((==_iff _ _).0 same),
              λ t follows. follows,
            )
      | inr changed ↦ rw (e, changed) (refl, λ t follows. follows)
    ]
  ]

  -- The query behind what a reload has left.
  awake-KillStep :
      (w : KillIdle.Wakeup) (s : KillIdle.State)
      → HasQuery s
      → KillStep s.kill_max_idle_time (kill_idle_awake print_int print_unsigned w s)
  unfolding kill_idle_awake
  awake-KillStep w s h =
      let reloaded = kill_idle_reload print_int print_unsigned w.config_file s in
      let s2 = record reloaded.1 { flags = kill_idle_signals w.late reloaded.1.flags } in
      let first = reload-KillStep w.config_file s h in
      let bye = log (codes "bgworker kill_idle signal: processed SIGTERM") ∷ [] in
      if-GoodStep AreCurrent interval_of HasQuery s.kill_max_idle_time reloaded.1.flags.got_sigterm
        _ _
        (seq_GoodStep AreCurrent interval_of HasQuery s.kill_max_idle_time reloaded.0 reloaded.1
          (bye, exits 0) first (tt, λ t follows. follows reloaded.1.kill_max_idle_time))
        (seq_GoodStep AreCurrent interval_of HasQuery s.kill_max_idle_time reloaded.0 reloaded.1
          (kill_idle_query print_int print_unsigned w.answer s2) first
          (query-KillStep w.answer s2 first.0))

  round-KillStep :
      (w : KillIdle.Wakeup) (s : KillIdle.State)
      → HasQuery s
      → KillStep s.kill_max_idle_time (kill_idle_round print_int print_unsigned w s)
  unfolding kill_idle_round
  round-KillStep w s h =
      if-GoodStep AreCurrent interval_of HasQuery s.kill_max_idle_time s.flags.got_sigterm _ _
        (tt, λ t follows. follows s.kill_max_idle_time)
        (awake-KillStep w (record s { flags = kill_idle_signals w.early s.flags }) h)

  -- Each query that kill_idle executes is that of the interval which the last reload of the
  -- configuration gave, or of the first one before any.
  pub kill_idle_queries :
      (kill_max_idle_time : ℕ) (ws : List KillIdle.Wakeup)
      → AreCurrent kill_max_idle_time
          (kill_idle_main print_int print_unsigned kill_max_idle_time ws).0
  unfolding kill_idle_main
  kill_idle_queries kill_max_idle_time ws =
      rounds_good AreCurrent interval_of HasQuery (kill_idle_round print_int print_unsigned)
        round-KillStep (λ i. tt) ws _ refl
