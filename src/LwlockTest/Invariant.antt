-- ===== src/LwlockTest/Invariant.antt =====
-- lwlock_test/lwlock_test.c: what holds in each state of the exchange, with M rounds of the updater and
-- N updates that the waiter wants.
use Prim.Native.Nat.{min}
use pg_plugins.Base.{ℕ, ◌+◌, ◌-◌, ◌*◌, ◌≤◌, ◌<◌, ◌≡◌, Bool, true, false}
use pg_plugins.LwlockTest.Locks.{LwLocks, SharedState}
use pg_plugins.LwlockTest.Backends.{
  looping, replying, ended, Waiter, starting, waiting, updating, releasing, returned,
}
use pg_plugins.LwlockTest.System.{Session, updates, released}

-- A bound on the steps that each backend has left.
abbrev pub session_rank : (m : ℕ) → Session → ℕ
session_rank m (updates (looping c o)) = 2 * (m - c) + 2
session_rank m (updates (replying c o)) = 2 * (m - c) + 1
session_rank m (updates ended) = 1
session_rank m released = 0

abbrev pub waiter_rank : (n : ℕ) → Waiter → ℕ
waiter_rank n starting = 0
waiter_rank n (waiting o d) = 2 * (n - d) + 2
waiter_rank n (updating o d) = 2 * (n - d) + 3
waiter_rank n (releasing d) = 1
waiter_rank n (returned d) = 0

module _ (locks : LwLocks) where
  open locks use {is_held, pg_atomic_read_u64, wait_for_var}

  -- The two locks and their variables.
  abbrev pub UpdaterLock : SharedState locks → Bool → ℕ → Type 0
  UpdaterLock s held value = (is_held s.updater ≡ held) × (pg_atomic_read_u64 s.updater ≡ value)

  abbrev pub WaiterLock : SharedState locks → Bool → ℕ → Type 0
  WaiterLock s held value = (is_held s.waiter ≡ held) × (pg_atomic_read_u64 s.waiter ≡ value)

  -- The updater has made c rounds and the waiter has seen d updates, c or c + 1 of them.
  module _ (m n : ℕ) where
    abbrev pub Inv : Session → Waiter → SharedState locks → Type 0
    Inv (updates (looping c o)) (waiting o' d) s =
        UpdaterLock s true c
        × WaiterLock s true d
        × (o ≡ c)
        × (o' ≡ d)
        × (d ≡ c)
        × (c ≤ m)
        × (d < n)
    Inv (updates (looping c o)) (releasing d) s =
        UpdaterLock s true c × WaiterLock s true d × (o ≡ c) × (d ≡ c) × (c ≤ m) × (d ≡ n)
    Inv (updates (looping c o)) (returned d) s =
        UpdaterLock s true c × WaiterLock s false 0 × (o ≡ c) × (d ≡ c) × (c ≤ m) × (d ≡ n)
    Inv (updates (replying c o)) (waiting o' d) s =
        UpdaterLock s true (c + 1)
        × WaiterLock s true d
        × (o ≡ c)
        × (o' ≡ d)
        × (c ≤ d)
        × (d ≤ c + 1)
        × (c < m)
        × (d < n)
    Inv (updates (replying c o)) (updating o' d) s =
        UpdaterLock s true (c + 1)
        × WaiterLock s true c
        × (o ≡ c)
        × (o' ≡ d)
        × (d ≡ c + 1)
        × (c < m)
        × (d ≤ n)
    Inv (updates (replying c o)) (releasing d) s =
        UpdaterLock s true (c + 1)
        × WaiterLock s true d
        × (o ≡ c)
        × (c ≤ d)
        × (d ≤ c + 1)
        × (c < m)
        × (d ≡ n)
    Inv (updates (replying c o)) (returned d) s =
        UpdaterLock s true (c + 1)
        × WaiterLock s false 0
        × (o ≡ c)
        × (c ≤ d)
        × (d ≤ c + 1)
        × (c < m)
        × (d ≡ n)
    Inv (updates ended) (waiting o d) s =
        UpdaterLock s true m × WaiterLock s true d × (o ≡ d) × (d ≡ m) × (d < n)
    Inv (updates ended) (releasing d) s = (is_held s.updater ≡ true) × (d ≡ min m n)
    Inv (updates ended) (returned d) s = (is_held s.updater ≡ true) × (d ≡ min m n)
    Inv released (waiting o d) s = UpdaterLock s false 0 × (d ≡ m) × (d < n)
    Inv released (releasing d) s = d ≡ min m n
    Inv released (returned d) s = d ≡ min m n
    Inv _ _ s = ⊥
