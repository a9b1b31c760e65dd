-- ===== src/LwlockTest/Preserved.antt =====
-- lwlock_test/lwlock_test.c: each step of either backend keeps the invariant.
use Prim.Native.Nat.{max}
use pg_plugins.Base.{ℕ, ◌<◌, ◌^◌, ◌≡◌, inl, inr, Option, none, some, arith}
use pg_plugins.Base.Int.{ℤ, pos_part}
use pg_plugins.LwlockTest.Locks.{LwLocks, LwLockLaws, SharedState, release}
use pg_plugins.LwlockTest.Backends.{
  looping, replying, ended, Waiter, starting, waiting, updating, releasing, returned, waiter_step,
  next_value,
}
use pg_plugins.LwlockTest.System.{Session, updates, released, session_step}
use pg_plugins.LwlockTest.Moves.{
  below-cases, wait-cases, session-update, session-end, session-break, session-sleeps,
  session-reply, session-release, session-over, waiter-sleeps, waiter-break, waiter-counts,
  waiter-again, waiter-leaves, waiter-release, waiter-over,
}
use pg_plugins.LwlockTest.Invariant.{Inv, session_rank, waiter_rank}

module _ (locks : LwLocks) (laws : LwLockLaws locks) where
  open locks use {pg_atomic_read_u64}
  open laws use {update_held, update_value, release_held, release_value}

  module _ (loops waits : ℤ) (m n : ℕ) where
    -- What a step gives is in the invariant, and of a smaller rank.
    abbrev pub KeepsFirst : Waiter → ℕ → Option (Session × SharedState locks) → Type 0
    KeepsFirst w rank none = Unit
    KeepsFirst w rank (some (p, s)) = Inv locks m n p w s × (session_rank m p < rank)

    abbrev pub KeepsSecond : Session → ℕ → Option (Waiter × SharedState locks) → Type 0
    KeepsSecond p rank none = Unit
    KeepsSecond p rank (some (w, s)) = Inv locks m n p w s × (waiter_rank n w < rank)

    pub first-keeps :
        m ≡ pos_part loops
        → m < 2 ^ 31
        → (p : Session) (w : Waiter) (s : SharedState locks) → Inv locks m n p w s
        → KeepsFirst w (session_rank m p) (session_step locks loops waits p s)
    unfolding release
    first-keeps em small (updates (looping c o)) (waiting o' d) s i = elim (below-cases c loops) [
      | inl (lt, e) ↦
          let v = next_value (pg_atomic_read_u64 s.updater) in
          rw (session-update locks loops waits s c o e)
            (ground (arith, update_held s.updater v, update_value s.updater v))
      | inr (ge, e) ↦ rw (session-end locks loops waits s c o e) (ground arith)
    ]
    first-keeps em small (updates (looping c o)) (releasing d) s i = elim (below-cases c loops) [
      | inl (lt, e) ↦
          let v = next_value (pg_atomic_read_u64 s.updater) in
          rw (session-update locks loops waits s c o e)
            (ground (arith, update_held s.updater v, update_value s.updater v))
      | inr (ge, e) ↦ rw (session-end locks loops waits s c o e) (ground arith)
    ]
    first-keeps em small (updates (looping c o)) (returned d) s i = elim (below-cases c loops) [
      | inl (lt, e) ↦
          let v = next_value (pg_atomic_read_u64 s.updater) in
          rw (session-update locks loops waits s c o e)
            (ground (arith, update_held s.updater v, update_value s.updater v))
      | inr (ge, e) ↦ rw (session-end locks loops waits s c o e) (ground arith)
    ]
    first-keeps em small (updates (replying c o)) (waiting o' d) s i =
        elim (wait-cases locks laws s.waiter o) [
          | inl (free, e) ↦ absurd (ground (arith, free))
          | inr (inl (held, same, e)) ↦ rw (session-sleeps locks loops waits s c o e) tt
          | inr (inr (held, differ, e)) ↦
              rw (session-reply locks loops waits s c o _ e) (ground arith)
        ]
    first-keeps em small (updates (replying c o)) (updating o' d) s i =
        elim (wait-cases locks laws s.waiter o) [
          | inl (free, e) ↦ absurd (ground (arith, free))
          | inr (inl (held, same, e)) ↦ rw (session-sleeps locks loops waits s c o e) tt
          | inr (inr (held, differ, e)) ↦ absurd (ground arith)
        ]
    first-keeps em small (updates (replying c o)) (releasing d) s i =
        elim (wait-cases locks laws s.waiter o) [
          | inl (free, e) ↦ absurd (ground (arith, free))
          | inr (inl (held, same, e)) ↦ rw (session-sleeps locks loops waits s c o e) tt
          | inr (inr (held, differ, e)) ↦
              rw (session-reply locks loops waits s c o _ e) (ground arith)
        ]
    first-keeps em small (updates (replying c o)) (returned d) s i =
        elim (wait-cases locks laws s.waiter o) [
          | inl (free, e) ↦ rw (session-break locks loops waits s c o e) (ground arith)
          | inr (inl (held, same, e)) ↦ absurd (ground (arith, held))
          | inr (inr (held, differ, e)) ↦ absurd (ground (arith, held))
        ]
    first-keeps em small (updates ended) (waiting o d) s i =
        rw (session-release locks loops waits s)
          (ground (arith, release_held s.updater 0, release_value s.updater 0))
    first-keeps em small (updates ended) (releasing d) s i =
        rw (session-release locks loops waits s) (ground arith)
    first-keeps em small (updates ended) (returned d) s i =
        rw (session-release locks loops waits s) (ground arith)
    first-keeps em small (updates (looping c o)) starting s i = elim i [ ]
    first-keeps em small (updates (looping c o)) (updating o' d) s i = elim i [ ]
    first-keeps em small (updates (replying c o)) starting s i = elim i [ ]
    first-keeps em small (updates ended) starting s i = elim i [ ]
    first-keeps em small (updates ended) (updating o' d) s i = elim i [ ]
    first-keeps em small released w s i = rw (session-over locks loops waits s) tt

    pub second-keeps :
        n ≡ max (pos_part waits) 1
        → n < 2 ^ 31
        → (p : Session) (w : Waiter) (s : SharedState locks) → Inv locks m n p w s
        → KeepsSecond p (waiter_rank n w) (waiter_step locks waits w s)
    second-keeps en small (updates (looping c o)) (waiting o' d) s i =
        elim (wait-cases locks laws s.updater o') [
          | inl (free, e) ↦ absurd (ground (arith, free))
          | inr (inl (held, same, e)) ↦ rw (waiter-sleeps locks loops waits s o' d e) tt
          | inr (inr (held, differ, e)) ↦ absurd (ground (arith, differ))
        ]
    second-keeps en small (updates (replying c o)) (waiting o' d) s i =
        elim (wait-cases locks laws s.updater o') [
          | inl (free, e) ↦ absurd (ground (arith, free))
          | inr (inl (held, same, e)) ↦ rw (waiter-sleeps locks loops waits s o' d e) tt
          | inr (inr (held, differ, e)) ↦
              rw (waiter-counts locks loops waits s o' d _ differ e) (ground arith)
        ]
    second-keeps en small (updates ended) (waiting o' d) s i =
        elim (wait-cases locks laws s.updater o') [
          | inl (free, e) ↦ absurd (ground (arith, free))
          | inr (inl (held, same, e)) ↦ rw (waiter-sleeps locks loops waits s o' d e) tt
          | inr (inr (held, differ, e)) ↦ absurd (ground (arith, differ))
        ]
    second-keeps en small released (waiting o' d) s i = elim (wait-cases locks laws s.updater o') [
      | inl (free, e) ↦ rw (waiter-break locks loops waits s o' d e) (omega arith)
      | inr (inl (held, same, e)) ↦ absurd (ground (arith, held))
      | inr (inr (held, differ, e)) ↦ absurd (ground (arith, held))
    ]
    second-keeps en small (updates (replying c o)) (updating o' d) s i =
        elim (below-cases d waits) [
          | inl (lt, e) ↦
              let v = next_value (pg_atomic_read_u64 s.waiter) in
              rw (waiter-again locks loops waits s o' d e)
                (ground (arith, update_held s.waiter v, update_value s.waiter v))
          | inr (ge, e) ↦
              let v = next_value (pg_atomic_read_u64 s.waiter) in
              rw (waiter-leaves locks loops waits s o' d e)
                (ground (arith, update_held s.waiter v, update_value s.waiter v))
        ]
    second-keeps en small (updates (looping c o)) (releasing d) s i =
        rw (waiter-release locks loops waits s d)
          (ground (arith, release_held s.waiter 0, release_value s.waiter 0))
    second-keeps en small (updates (replying c o)) (releasing d) s i =
        rw (waiter-release locks loops waits s d)
          (ground (arith, release_held s.waiter 0, release_value s.waiter 0))
    second-keeps en small (updates ended) (releasing d) s i =
        rw (waiter-release locks loops waits s d)
          (ground (arith, release_held s.waiter 0, release_value s.waiter 0))
    second-keeps en small released (releasing d) s i =
        rw (waiter-release locks loops waits s d)
          (ground (arith, release_held s.waiter 0, release_value s.waiter 0))
    second-keeps en small p (returned d) s i = rw (waiter-over locks loops waits s d) tt
    second-keeps en small (updates (looping c o)) starting s i = elim i [ ]
    second-keeps en small (updates (looping c o)) (updating o' d) s i = elim i [ ]
    second-keeps en small (updates (replying c o)) starting s i = elim i [ ]
    second-keeps en small (updates ended) starting s i = elim i [ ]
    second-keeps en small (updates ended) (updating o' d) s i = elim i [ ]
    second-keeps en small released starting s i = elim i [ ]
    second-keeps en small released (updating o' d) s i = elim i [ ]
