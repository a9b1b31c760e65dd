-- ===== src/LwlockTest/Locks.antt =====
-- lwlock_test/lwlock_test.c: the locks of the server, and the shared state with its start.
use pg_plugins.Base.{ℕ, ◌≡◌, ◌≢◌, Bool, true, false, Option, none, some, Bytes, codes}
use pg_plugins.Base.Result.{Result, ok, err}

-- The lightweight locks of the server, each with the variable that the plugin pairs it with. A call
-- that sleeps is none: the backend tries it again.
pub record LwLocks : Type 1 where
  pub LWLock : Type 0
  pub is_held : LWLock → Bool
  pub pg_atomic_read_u64 : LWLock → ℕ
  pub pg_atomic_init_u64 : ℕ → LWLock → LWLock
  pub acquire : LWLock → Option LWLock
  pub update_var : ℕ → LWLock → LWLock
  pub release_clear_var : ℕ → LWLock → LWLock
  -- LWLockWaitForVar: none within where it returns true, the new value where it returns false.
  pub wait_for_var : LWLock → (oldval : ℕ) → Option (Option ℕ)

-- What is documented of them.
pub record LwLockLaws (locks : LwLocks) : Type 0 where
  -- An update keeps the lock, a release frees it, and both set the variable.
  pub update_held :
      (l : locks.LWLock) (v : ℕ) → locks.is_held (locks.update_var v l) ≡ locks.is_held l
  pub update_value :
      (l : locks.LWLock) (v : ℕ) → locks.pg_atomic_read_u64 (locks.update_var v l) ≡ v
  pub release_held :
      (l : locks.LWLock) (v : ℕ) → locks.is_held (locks.release_clear_var v l) ≡ false
  pub release_value :
      (l : locks.LWLock) (v : ℕ) → locks.pg_atomic_read_u64 (locks.release_clear_var v l) ≡ v
  -- The wait ends with true where the lock is free, with false where it is held with another value,
  -- and goes on where it is held with the old value.
  pub wait_free :
      (l : locks.LWLock) (oldval : ℕ)
      → locks.is_held l ≡ false
      → locks.wait_for_var l oldval ≡ some none
  pub wait_changed :
      (l : locks.LWLock) (oldval : ℕ)
      → locks.is_held l ≡ true
      → locks.pg_atomic_read_u64 l ≢ oldval
      → locks.wait_for_var l oldval ≡ some (some (locks.pg_atomic_read_u64 l))
  pub wait_sleeps :
      (l : locks.LWLock)
      → locks.is_held l ≡ true
      → locks.wait_for_var l (locks.pg_atomic_read_u64 l) ≡ none

module _ (locks : LwLocks) where
  -- lwtSharedState, with each lock and its variable as one.
  pub record SharedState : Type 0 where
    pub updater : locks.LWLock
    pub waiter : locks.LWLock

  -- lwt_shmem_startup: the structure found, or a new one over the two locks of the named tranches.
  unfoldable pub lwt_shmem_startup :
      (found : Option SharedState) (updater waiter : locks.LWLock) → SharedState
  lwt_shmem_startup (some lwt) updater waiter = lwt
  lwt_shmem_startup none updater waiter = record {
    updater = locks.pg_atomic_init_u64 0 updater;
    waiter = locks.pg_atomic_init_u64 0 waiter;
  }

  -- The test of lwt at the start of each SQL function, with the name in the message.
  unfoldable pub loaded : Option SharedState → (name : Bytes) → Result Bytes SharedState
  loaded none name = err name
  loaded (some lwt) name = ok lwt

  -- The calls that lwlock_test_acquire and lwlock_test_release make. An acquisition that sleeps is none.
  unfoldable pub lwlock_test_acquire : Option SharedState → Result Bytes (Option SharedState)
  unfolding loaded
  lwlock_test_acquire shared = elim (loaded shared (codes "lwlock_test_acquire")) [
    | err name ↦ err name
    | ok lwt ↦ elim (locks.acquire lwt.updater) [
      | none ↦ ok none
      | some l ↦ ok (some (record lwt { updater = l }))
    ]
  ]

  unfoldable pub release : SharedState → SharedState
  release lwt = record lwt { updater = locks.release_clear_var 0 lwt.updater }

  unfoldable pub lwlock_test_release : Option SharedState → Result Bytes SharedState
  unfolding loaded release
  lwlock_test_release shared = elim (loaded shared (codes "lwlock_test_release")) [
    | err name ↦ err name
    | ok lwt ↦ ok (release lwt)
  ]
