-- ===== src/LwlockTest/Handshake.antt =====
-- lwlock_test/lwlock_test.c: every interleaving of the exchange ends, and how.
use Prim.Native.Nat.{min, max}
use pg_plugins.Base.{
  ℕ, ◌+◌, ◌*◌, ◌≤◌, ◌<◌, ◌^◌, ◌≡◌, ◌⊎◌, inl, inr, refl, ap, true, Option, some, arith,
}
use pg_plugins.Base.Int.{ℤ, pos_part}
use pg_plugins.LwlockTest.Locks.{LwLocks, LwLockLaws, SharedState}
use pg_plugins.LwlockTest.Backends.{
  looping, replying, ended, Waiter, starting, waiting, updating, releasing, returned, waiter_step,
}
use pg_plugins.LwlockTest.System.{
  Session, updates, released, session_step, System, Step, first_moves, second_moves, Run, here,
  next,
}
use pg_plugins.LwlockTest.Moves.{
  below-cases, wait-cases, session-update, session-end, session-break, session-reply,
  session-release, waiter-break, waiter-counts, waiter-again, waiter-leaves, waiter-release,
}
use pg_plugins.LwlockTest.Invariant.{Inv, UpdaterLock, WaiterLock, session_rank, waiter_rank}
use pg_plugins.LwlockTest.Preserved.{KeepsFirst, KeepsSecond, first-keeps, second-keeps}

-- An outcome of a step that does not sleep.
abbrev Moves : {A : Type 0} → Option A → Type 0
Moves {A} o = (a : A) × (o ≡ some a)

module _ (locks : LwLocks) (laws : LwLockLaws locks) (loops waits : ℤ) (m n : ℕ) where
  abbrev Final : Session → Waiter → Type 0
  Final p w = (p ≡ released) × (w ≡ returned (min m n))

  -- No state is stuck before both backends have ended.
  progress :
      (p : Session) (w : Waiter) (s : SharedState locks)
      → Inv locks m n p w s
      → Moves (session_step locks loops waits p s) ⊎ Moves (waiter_step locks waits w s) ⊎ Final p w
  progress (updates (looping c o)) w s i = elim (below-cases c loops) [
    | inl (lt, e) ↦ inl (_, session-update locks loops waits s c o e)
    | inr (ge, e) ↦ inl (_, session-end locks loops waits s c o e)
  ]
  progress (updates ended) w s i = inl (_, session-release locks loops waits s)
  progress (updates (replying c o)) (waiting o' d) s i = elim (wait-cases locks laws s.waiter o) [
    | inl (free, e) ↦ inl (_, session-break locks loops waits s c o e)
    | inr (inr (held, differ, e)) ↦ inl (_, session-reply locks loops waits s c o _ e)
    | inr (inl (held, same, e)) ↦ elim (wait-cases locks laws s.updater o') [
      | inl (free, e') ↦ inr (inl (_, waiter-break locks loops waits s o' d e'))
      | inr (inr (held', differ, e')) ↦
          inr (inl (_, waiter-counts locks loops waits s o' d _ differ e'))
      | inr (inl (held', same', e')) ↦ absurd (ground (arith, same, same'))
    ]
  ]
  progress (updates (replying c o)) (returned d) s i = elim (wait-cases locks laws s.waiter o) [
    | inl (free, e) ↦ inl (_, session-break locks loops waits s c o e)
    | inr (inl (held, same, e)) ↦ absurd (ground (arith, held))
    | inr (inr (held, differ, e)) ↦ absurd (ground (arith, held))
  ]
  progress p (updating o d) s i = elim (below-cases d waits) [
    | inl (lt, e) ↦ inr (inl (_, waiter-again locks loops waits s o d e))
    | inr (ge, e) ↦ inr (inl (_, waiter-leaves locks loops waits s o d e))
  ]
  progress p (releasing d) s i = inr (inl (_, waiter-release locks loops waits s d))
  progress released (waiting o d) s i = elim (wait-cases locks laws s.updater o) [
    | inl (free, e) ↦ inr (inl (_, waiter-break locks loops waits s o d e))
    | inr (inl (held, same, e)) ↦ absurd (ground (arith, held))
    | inr (inr (held, differ, e)) ↦ absurd (ground (arith, held))
  ]
  progress released (returned d) s i = inr (inr (refl, ap returned i))
  progress (updates (replying c o)) starting s i = elim i [ ]
  progress released starting s i = elim i [ ]

  abbrev Holds : System locks → Type 0
  Holds t = Inv locks m n t.session t.waiter_at t.shared

  abbrev rank : System locks → ℕ
  rank t = session_rank m t.session + waiter_rank n t.waiter_at

  module _ (em : m ≡ pos_part loops) (en : n ≡ max (pos_part waits) 1) (small : m < 2 ^ 31)
      (small' : n < 2 ^ 31) where
    Step-Holds :
        {t u : System locks} → Step locks loops waits t u → Holds t → Holds u × (rank u < rank t)
    Step-Holds {t} (first_moves p s moved e) i =
        let keeps : KeepsFirst locks laws loops waits m n t.waiter_at (session_rank m t.session)
            (some (p, s)) =
          rw moved at
            (first-keeps locks laws loops waits m n em small t.session t.waiter_at t.shared i) in
        rw e (keeps.0, omega (arith, keeps.1))
    Step-Holds {t} (second_moves w s moved e) i =
        let keeps : KeepsSecond locks laws loops waits m n t.session (waiter_rank n t.waiter_at)
            (some (w, s)) =
          rw moved at
            (second-keeps locks laws loops waits m n en small' t.session t.waiter_at t.shared i) in
        rw e (keeps.0, omega (arith, keeps.1))

    Run-Holds :
        {s t : System locks} {k : ℕ}
        → Holds s
        → Run locks loops waits s k t
        → Holds t × (k + rank t ≤ rank s)
    Run-Holds h here = (h, omega arith)
    Run-Holds h (next r st) =
        let (before, bound) = Run-Holds h r in
        let (after, less) = Step-Holds st before in (after, omega (arith, bound, less))

    progress-Step :
        (t : System locks)
        → Holds t
        → ((u : System locks) × Step locks loops waits t u) ⊎ Final t.session t.waiter_at
    progress-Step t h = elim (progress t.session t.waiter_at t.shared h) [
      | inl ((p, s), e) ↦ inl (_, first_moves p s e refl)
      | inr (inl ((w, s), e)) ↦ inl (_, second_moves w s e refl)
      | inr (inr final) ↦ inr final
    ]

module _ (locks : LwLocks) where
  -- lwlock_test_update and lwlock_test_wait have both begun, behind lwlock_test_acquire and behind the
  -- waiter's acquisition of its lock.
  abbrev pub begun : SharedState locks → System locks
  begun s = record { session = updates (looping 0 0); waiter_at = waiting 0 0; shared = s }

-- The exchange of lwlock_test_update with some loops, followed by lwlock_test_release, and
-- lwlock_test_wait with some waits, begun as the functions document it: the first backend holds the
-- updater lock, the second one the waiter lock, and both variables are 0. Every interleaving ends: a run
-- has at most 2 (M + N) + 4 steps, where M is the number of loops and N that of waits, at least one; a
-- state from which no backend can move is one in which both have returned; and then the waiter has seen
-- as many updates as the smaller of M and N.
pub handshake :
    (locks : LwLocks) (loops waits : ℤ) (s : SharedState locks) (k : ℕ) (t : System locks)
    → LwLockLaws locks
    → pos_part loops < 2 ^ 31
    → pos_part waits < 2 ^ 31
    → UpdaterLock locks s true 0
    → WaiterLock locks s true 0
    → Run locks loops waits (begun locks s) k t
    → (k ≤ 2 * (pos_part loops + max (pos_part waits) 1) + 4)
      × (((u : System locks) × Step locks loops waits t u)
          ⊎ ((t.session ≡ released)
              × (t.waiter_at ≡ returned (min (pos_part loops) (max (pos_part waits) 1)))))
handshake locks loops waits s k t laws small small' upd wtr run =
    let m = pos_part loops in
    let n = max (pos_part waits) 1 in
    let (holds, bound) =
      Run-Holds locks laws loops waits m n refl refl small (omega arith) {s = begun locks s}
        (upd, wtr, refl, refl, refl, omega arith, omega arith) run in
    (
      omega (arith, bound),
      progress-Step locks laws loops waits m n refl refl small (omega arith) t holds,
    )
