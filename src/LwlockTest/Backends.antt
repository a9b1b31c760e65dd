-- ===== src/LwlockTest/Backends.antt =====
-- lwlock_test/lwlock_test.c: lwlock_test_update and lwlock_test_wait, one access to the shared state
-- at a time. A step that sleeps is none.
use pg_plugins.Base.{
  ℕ, ◌+◌, ◌%◌, ◌^◌, Bool, not, Option, none, some, Bytes, codes, ◌==◌, if◌then◌else◌,
}
use pg_plugins.Base.Int.{ℤ, pos, ltb_ℤ}
use pg_plugins.Base.Result.{Result, ok, err}
use pg_plugins.LwlockTest.Locks.{LwLocks, SharedState, loaded}

-- Where lwlock_test_update stands: at the test of its loop, in the wait for the waiter, or at its end.
pub data Updater : Type 0 where
  looping replying : (count oldval : ℕ) → Updater
  ended : Updater

-- Where lwlock_test_wait stands: in front of the lock, in the wait for the updater, at the update of
-- waiter_var, at the release, or at its end.
pub data Waiter : Type 0 where
  starting : Waiter
  waiting updating : (oldval updates_done : ℕ) → Waiter
  releasing returned : (updates_done : ℕ) → Waiter

-- `pg_atomic_read_u64(...) + 1`
abbrev pub next_value : ℕ → ℕ
next_value v = (v + 1) % 2 ^ 64

-- A count against an argument of type int: `count < bound`.
unfoldable pub below : ℕ → ℤ → Bool
below count bound = ltb_ℤ (pos count) bound

-- `oldval` behind `if (oldval != newval)`.
abbrev pub refreshed : (oldval newval : ℕ) → ℕ
refreshed oldval newval = if not (oldval == newval) then newval else oldval

module _ (locks : LwLocks) where
  open locks use {pg_atomic_read_u64, acquire, update_var, release_clear_var, wait_for_var}

  -- The start of each of the two functions.
  unfoldable pub lwlock_test_update : Option (SharedState locks) → Result Bytes Updater
  unfolding loaded
  lwlock_test_update shared = elim (loaded locks shared (codes "lwlock_test_update")) [
    | err name ↦ err name
    | ok lwt ↦ ok (looping 0 0)
  ]

  unfoldable pub lwlock_test_wait : Option (SharedState locks) → Result Bytes Waiter
  unfolding loaded
  lwlock_test_wait shared = elim (loaded locks shared (codes "lwlock_test_wait")) [
    | err name ↦ err name
    | ok lwt ↦ ok starting
  ]

  unfoldable pub updater_step :
      (loops : ℤ) → Updater → SharedState locks → Option (Updater × SharedState locks)
  updater_step loops (looping count oldval) s =
      let value = next_value (pg_atomic_read_u64 s.updater) in
      if below count loops
      then some (replying count oldval, record s { updater = update_var value s.updater })
      else some (ended, s)
  updater_step loops (replying count oldval) s = elim (wait_for_var s.waiter oldval) [
    | none ↦ none
    | some none ↦ some (ended, s)
    | some (some newval) ↦ some (looping (count + 1) (refreshed oldval newval), s)
  ]
  updater_step loops ended s = none

  unfoldable pub waiter_step :
      (waits_to_do : ℤ) → Waiter → SharedState locks → Option (Waiter × SharedState locks)
  waiter_step waits starting s = elim (acquire s.waiter) [
    | none ↦ none
    | some l ↦ some (waiting 0 0, record s { waiter = l })
  ]
  waiter_step waits (waiting oldval done) s = elim (wait_for_var s.updater oldval) [
    | none ↦ none
    | some none ↦ some (releasing done, s)
    | some (some newval) ↦
        some (
          updating (refreshed oldval newval) (if not (oldval == newval) then done + 1 else done),
          s,
        )
  ]
  waiter_step waits (updating oldval done) s =
      let value = next_value (pg_atomic_read_u64 s.waiter) in
      let s' : SharedState locks = record s { waiter = update_var value s.waiter } in
      if not (below done waits) then some (releasing done, s') else some (waiting oldval done, s')
  waiter_step waits (releasing done) s =
      some (returned done, record s { waiter = release_clear_var 0 s.waiter })
  waiter_step waits (returned done) s = none
