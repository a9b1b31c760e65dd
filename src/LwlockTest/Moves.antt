-- ===== src/LwlockTest/Moves.antt =====
-- lwlock_test/lwlock_test.c: the steps of the two backends, case by case.
use pg_plugins.Base.{
  ℕ, ◌+◌, ◌≤◌, ◌<◌, ◌≡◌, ◌≢◌, ◌⊎◌, inl, inr, refl, true, false, Bool-cases, not, none, some, arith,
  ◌==◌, ==_iff, if◌then◌else◌,
}
use pg_plugins.Base.Int.{ℤ, pos, negsuc, pos_part}
use pg_plugins.LwlockTest.Locks.{LwLocks, LwLockLaws, SharedState, release}
use pg_plugins.LwlockTest.Backends.{
  looping, replying, ended, waiting, updating, releasing, returned, updater_step, waiter_step,
  next_value, below, refreshed,
}
use pg_plugins.LwlockTest.System.{updates, released, session_step}

pub below-cases :
    (count : ℕ) (bound : ℤ)
    → ((count < pos_part bound) × (below count bound ≡ true))
      ⊎ ((pos_part bound ≤ count) × (below count bound ≡ false))
unfolding below
below-cases count (pos b) = elim (Bool-cases (below count (pos b))) [
  | inl e ↦ inl (ground arith, e)
  | inr e ↦ inr (ground arith, e)
]
below-cases count (negsuc b) = inr (ground arith, ground arith)

pub refreshed_lem : (oldval newval : ℕ) → refreshed oldval newval ≡ newval
refreshed_lem oldval newval = ground arith

counted :
    (oldval newval done : ℕ)
    → newval ≢ oldval
    → (if not (oldval == newval) then done + 1 else done) ≡ done + 1
counted oldval newval done differ = ground arith

module _ (locks : LwLocks) where
  open locks use {is_held, pg_atomic_read_u64, update_var, release_clear_var, wait_for_var}

  -- How LWLockWaitForVar ends.
  pub wait-cases :
      LwLockLaws locks
      → (l : locks.LWLock) (oldval : ℕ)
      → ((is_held l ≡ false) × (wait_for_var l oldval ≡ some none))
        ⊎ ((is_held l ≡ true) × (pg_atomic_read_u64 l ≡ oldval) × (wait_for_var l oldval ≡ none))
        ⊎ ((is_held l ≡ true)
            × (pg_atomic_read_u64 l ≢ oldval)
            × (wait_for_var l oldval ≡ some (some (pg_atomic_read_u64 l))))
  wait-cases laws l oldval = elim (Bool-cases (is_held l)) [
    | inr free ↦ inl (free, laws.wait_free l oldval free)
    | inl held ↦ elim (Bool-cases (pg_atomic_read_u64 l == oldval)) [
      | inl same ↦
          let e : pg_atomic_read_u64 l ≡ oldval = (==_iff _ _).0 same in
          inr (inl (held, e, rw (← e) (laws.wait_sleeps l held)))
      | inr other ↦
          let differ : pg_atomic_read_u64 l ≢ oldval = λ e. ground (arith, e, other) in
          inr (inr (held, differ, laws.wait_changed l oldval held differ))
    ]
  ]

  module _ (loops waits : ℤ) (s : SharedState locks) where
    pub session-update :
        (c o : ℕ)
        → below c loops ≡ true
        → session_step locks loops waits (updates (looping c o)) s
          ≡ some (
            updates (replying c o),
            record s { updater = update_var (next_value (pg_atomic_read_u64 s.updater)) s.updater },
          )
    unfolding session_step
    session-update c o e = rw (session_step, updater_step, e)

    pub session-end :
        (c o : ℕ)
        → below c loops ≡ false
        → session_step locks loops waits (updates (looping c o)) s ≡ some (updates ended, s)
    unfolding session_step
    session-end c o e = rw (session_step, updater_step, e)

    pub session-sleeps :
        (c o : ℕ)
        → wait_for_var s.waiter o ≡ none
        → session_step locks loops waits (updates (replying c o)) s ≡ none
    unfolding session_step
    session-sleeps c o e = rw (session_step, updater_step, e)

    pub session-break :
        (c o : ℕ)
        → wait_for_var s.waiter o ≡ some none
        → session_step locks loops waits (updates (replying c o)) s ≡ some (updates ended, s)
    unfolding session_step
    session-break c o e = rw (session_step, updater_step, e)

    pub session-reply :
        (c o v : ℕ)
        → wait_for_var s.waiter o ≡ some (some v)
        → session_step locks loops waits (updates (replying c o)) s
          ≡ some (updates (looping (c + 1) v), s)
    unfolding session_step
    session-reply c o v e = rw (session_step, updater_step, e, refreshed_lem o v)

    pub session-release :
        session_step locks loops waits (updates ended) s ≡ some (released, release locks s)
    unfolding session_step
    session-release = refl

    pub session-over : session_step locks loops waits released s ≡ none
    unfolding session_step
    session-over = refl

    pub waiter-sleeps :
        (o d : ℕ) → wait_for_var s.updater o ≡ none → waiter_step locks waits (waiting o d) s ≡ none
    unfolding waiter_step
    waiter-sleeps o d e = rw (waiter_step, e)

    pub waiter-break :
        (o d : ℕ)
        → wait_for_var s.updater o ≡ some none
        → waiter_step locks waits (waiting o d) s ≡ some (releasing d, s)
    unfolding waiter_step
    waiter-break o d e = rw (waiter_step, e)

    pub waiter-counts :
        (o d v : ℕ)
        → v ≢ o
        → wait_for_var s.updater o ≡ some (some v)
        → waiter_step locks waits (waiting o d) s ≡ some (updating v (d + 1), s)
    unfolding waiter_step
    waiter-counts o d v differ e = rw (waiter_step, e, refreshed_lem o v, counted o v d differ)

    pub waiter-again :
        (o d : ℕ)
        → below d waits ≡ true
        → waiter_step locks waits (updating o d) s
          ≡ some (
            waiting o d,
            record s { waiter = update_var (next_value (pg_atomic_read_u64 s.waiter)) s.waiter },
          )
    unfolding waiter_step
    waiter-again o d e = rw (waiter_step, e)

    pub waiter-leaves :
        (o d : ℕ)
        → below d waits ≡ false
        → waiter_step locks waits (updating o d) s
          ≡ some (
            releasing d,
            record s { waiter = update_var (next_value (pg_atomic_read_u64 s.waiter)) s.waiter },
          )
    unfolding waiter_step
    waiter-leaves o d e = rw (waiter_step, e)

    pub waiter-release :
        (d : ℕ)
        → waiter_step locks waits (releasing d) s
          ≡ some (returned d, record s { waiter = release_clear_var 0 s.waiter })
    unfolding waiter_step
    waiter-release d = refl

    pub waiter-over : (d : ℕ) → waiter_step locks waits (returned d) s ≡ none
    unfolding waiter_step
    waiter-over d = refl
