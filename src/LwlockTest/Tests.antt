-- ===== src/LwlockTest/Tests.antt =====
-- Runs of lwlock_test, and its theorem at a concrete run.
use Prim.Native.Nat.{min, max}
use pg_plugins.Base.{
  ℕ, zero, suc, ◌+◌, ◌*◌, ◌≤◌, ◌≡◌, ◌≢◌, ◌⊎◌, refl, Bool, true, false, not, Option, none, some,
  codes, arith, ◌==◌, if◌then◌else◌,
}
use pg_plugins.Base.Int.{ℤ, pos}
use pg_plugins.Base.Result.{ok, err}
use pg_plugins.LwlockTest.Locks.{
  LwLocks, LwLockLaws, SharedState, lwt_shmem_startup, lwlock_test_acquire, lwlock_test_release,
}
use pg_plugins.LwlockTest.Backends.{
  replying, waiting, updating, releasing, returned, below, waiter_step, lwlock_test_update,
  lwlock_test_wait,
}
use pg_plugins.LwlockTest.System.{
  updates, released, System, Step, Run, here, next, first_moves, second_moves, session_step,
}
use pg_plugins.LwlockTest.Handshake.{handshake, begun}

record Lock : Type 0 where
  held : Bool
  value : ℕ

-- LWLockWaitForVar on such a lock.
abbrev wait_lock : Lock → ℕ → Option (Option ℕ)
wait_lock l oldval =
    if not l.held then some none else if l.value == oldval then none else some (some l.value)

abbrev locks : LwLocks
locks = record {
  LWLock = Lock;
  is_held = λ l. l.held;
  pg_atomic_read_u64 = λ l. l.value;
  pg_atomic_init_u64 = λ v l. record l { value = v };
  acquire = λ l. if l.held then none else some (record l { held = true });
  update_var = λ v l. record l { value = v };
  release_clear_var = λ v l. record { held = false; value = v };
  wait_for_var = wait_lock;
}

wait_lock-free : (l : Lock) (oldval : ℕ) → l.held ≡ false → wait_lock l oldval ≡ some none
wait_lock-free l oldval free = rw free

wait_lock-changed :
    (l : Lock) (oldval : ℕ)
    → l.held ≡ true
    → l.value ≢ oldval
    → wait_lock l oldval ≡ some (some l.value)
wait_lock-changed l oldval held differ = ground arith

wait_lock-sleeps : (l : Lock) → l.held ≡ true → wait_lock l l.value ≡ none
wait_lock-sleeps l held = ground arith

abbrev laws : LwLockLaws locks
laws = record {
  update_held = λ l v. refl;
  update_value = λ l v. refl;
  release_held = λ l v. refl;
  release_value = λ l v. refl;
  wait_free = wait_lock-free;
  wait_changed = wait_lock-changed;
  wait_sleeps = wait_lock-sleeps;
}

abbrev free_lock : Lock
free_lock = record { held = false; value = 7 }

abbrev held_locks : SharedState locks
held_locks = record {
  updater = record { held = true; value = 0 };
  waiter = record { held = true; value = 0 };
}

-- The update, then its detection, then the reply.
abbrev updated : System locks
updated = record {
  session = updates (replying 0 0);
  waiter_at = waiting 0 0;
  shared = record held_locks { updater = record { held = true; value = 1 } };
}

abbrev detected : System locks
detected = record updated { waiter_at = updating 1 1 }

abbrev replied : System locks
replied = record {
  session = updates (replying 0 0);
  waiter_at = releasing 1;
  shared = record {
    updater = record { held = true; value = 1 };
    waiter = record { held = true; value = 1 };
  };
}

updates_first : Step locks (pos 2) (pos 1) (begun locks held_locks) updated
unfolding session_step below
updates_first = first_moves updated.session updated.shared refl refl

detects : Step locks (pos 2) (pos 1) updated detected
unfolding waiter_step
detects = second_moves detected.waiter_at detected.shared refl refl

replies : Step locks (pos 2) (pos 1) detected replied
unfolding waiter_step below
replies = second_moves replied.waiter_at replied.shared refl refl

three_steps : Run locks (pos 2) (pos 1) (begun locks held_locks) 3 replied
three_steps = next (next (next here updates_first) detects) replies

handshake_example :
    (3 ≤ 2 * (2 + max 1 1) + 4)
    × (((u : System locks) × Step locks (pos 2) (pos 1) replied u)
        ⊎ ((replied.session ≡ released) × (replied.waiter_at ≡ returned (min 2 (max 1 1)))))
handshake_example =
    handshake locks (pos 2) (pos 1) held_locks 3 replied laws (omega arith) (omega arith)
      (refl, refl) (refl, refl) three_steps

-- The two backends in turn, where a backend that sleeps passes, with loops and waits.
in_turn : ℕ → ℤ → ℤ → System locks → System locks
unfolding session_step waiter_step
in_turn zero loops waits t = t
in_turn (suc rounds) loops waits t =
    let t1 : System locks = elim (session_step locks loops waits t.session t.shared) [
      | none ↦ t
      | some (p, s) ↦ record t { session = p; shared = s }
    ] in
    let t2 : System locks = elim (waiter_step locks waits t1.waiter_at t1.shared) [
      | none ↦ t1
      | some (w, s) ↦ record t1 { waiter_at = w; shared = s }
    ] in
    in_turn rounds loops waits t2

more_updates_test : (in_turn 20 (pos 5) (pos 3) (begun locks held_locks)).waiter_at ≡ returned 3
unfolding in_turn below
more_updates_test = refl

more_waits_test : (in_turn 20 (pos 3) (pos 5) (begun locks held_locks)).waiter_at ≡ returned 3
unfolding in_turn below
more_waits_test = refl

startup_test :
    lwlock_test_acquire locks (some (lwt_shmem_startup locks none free_lock free_lock))
    ≡ ok (
        some (record {
          updater = record { held = true; value = 0 };
          waiter = record { held = false; value = 0 };
        }))
unfolding lwlock_test_acquire lwt_shmem_startup
startup_test = refl

release_test : lwlock_test_release locks none ≡ err (codes "lwlock_test_release")
unfolding lwlock_test_release
release_test = refl

not_loaded_test :
    (lwlock_test_update locks none ≡ err (codes "lwlock_test_update"))
    × (lwlock_test_wait locks none ≡ err (codes "lwlock_test_wait"))
unfolding lwlock_test_update lwlock_test_wait
not_loaded_test = (refl, refl)
