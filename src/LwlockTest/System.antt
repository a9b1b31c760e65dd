-- ===== src/LwlockTest/System.antt =====
-- lwlock_test/lwlock_test.c: the two backends in any interleaving.
use pg_plugins.Base.{ℕ, suc, ◌≡◌, Option, none, some}
use pg_plugins.Base.Int.{ℤ}
use pg_plugins.LwlockTest.Locks.{LwLocks, SharedState, release}
use pg_plugins.LwlockTest.Backends.{Updater, ended, Waiter, updater_step, waiter_step}

-- The session of the first backend: lwlock_test_update, then lwlock_test_release, then nothing.
pub data Session : Type 0 where
  updates : Updater → Session
  released : Session

module _ (locks : LwLocks) where
  pub record System : Type 0 where
    pub session : Session
    pub waiter_at : Waiter
    pub shared : SharedState locks

  module _ (loops waits : ℤ) where
    -- A step of the session.
    unfoldable pub session_step : Session → SharedState locks → Option (Session × SharedState locks)
    unfolding updater_step release
    session_step (updates ended) s = some (released, release locks s)
    session_step (updates u) s = elim (updater_step locks loops u s) [
      | none ↦ none
      | some (u', s') ↦ some (updates u', s')
    ]
    session_step released s = none

    pub data Step (t u : System) : Type 0 where
      first_moves :
          (p : Session) (s : SharedState locks)
          → session_step t.session t.shared ≡ some (p, s)
          → u ≡ record t { session = p; shared = s }
          → Step t u
      second_moves :
          (w : Waiter) (s : SharedState locks)
          → waiter_step locks waits t.waiter_at t.shared ≡ some (w, s)
          → u ≡ record t { waiter_at = w; shared = s }
          → Step t u

    -- A run of some number of steps.
    pub data Run (s : System) : ℕ → System → Type 0 where
      here : Run s 0 s
      next : {n : ℕ} {t u : System} → Run s n t → Step t u → Run s (suc n) u
