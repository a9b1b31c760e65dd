-- ===== src/Workers/Traces.antt =====
-- The background workers: statements on the whole trace of a loop, from statements on one round.
use pg_plugins.Base.{
  sym, List, [], ◌∷◌, ◌++◌, append-nil, append_assoc, ◌⊎◌, inl, inr, Bool, true, false,
  if◌then◌else◌,
}
use mathlib.Core.Path.{subst}
use pg_plugins.Workers.Loop.{Event, Step, again, exits, go_on, rounds}

-- A context, which a state gives, says what a trace may hold from there on.
module _ {Config S I : Type 0} (Good : I → List (Event Config) → Type 0) (context : S → I)
    (IsValid : S → Type 0) where
  -- What may follow a step: a good trace for the state that it leaves, or one good in any context.
  abbrev pub Follows : Step S → List (Event Config) → Type 0
  Follows (again s) t = Good (context s) t
  Follows (exits code) t = (i : I) → Good i t

  abbrev pub Leaves : Step S → Type 0
  Leaves (again s) = IsValid s
  Leaves (exits code) = Unit

  -- A step keeps the invariant, and its events are good in front of what may follow.
  abbrev pub GoodStep : I → List (Event Config) × Step S → Type 0
  GoodStep i r = Leaves r.1 × ((t : List (Event Config)) → Follows r.1 t → Good i (r.0 ++ t))

  -- Events, and then a step.
  pub seq_GoodStep :
      (i : I) (events : List (Event Config)) (s : S) (r : List (Event Config) × Step S)
      → GoodStep i (events, again s)
      → GoodStep (context s) r
      → GoodStep i (events ++ r.0, r.1)
  seq_GoodStep i events s r p q = (
    q.0,
    λ t follows. subst (Good i) (sym (append_assoc events r.0 t)) (p.1 (r.0 ++ t) (q.1 t follows)),
  )

  pub if-GoodStep :
      (i : I) (test : Bool) (r q : List (Event Config) × Step S)
      → GoodStep i r
      → GoodStep i q
      → GoodStep i (if test then r else q)
  if-GoodStep i true r q h k = h
  if-GoodStep i false r q h k = k

  next_rounds :
      (i : I) (r : List (Event Config) × Step S) (rest : S → List (Event Config) × Step S)
      → ((j : I) → Good j [])
      → GoodStep i r
      → ((s : S) → IsValid s → Good (context s) (rest s).0)
      → Good i (go_on r rest).0
  next_rounds i (events, again s) rest empty (valid, good) more = good (rest s).0 (more s valid)
  next_rounds i (events, exits code) rest empty (_, good) more =
      subst (Good i) (append-nil events) (good [] empty)

  pub rounds_good :
      {W : Type 0} (round : W → S → List (Event Config) × Step S)
      → ((w : W) (s : S) → IsValid s → GoodStep (context s) (round w s))
      → ((j : I) → Good j [])
      → (ws : List W) (s : S) → IsValid s
      → Good (context s) (rounds round ws s).0
  unfolding rounds
  rounds_good round good empty [] s valid = empty (context s)
  rounds_good round good empty (w ∷ ws) s valid =
      next_rounds (context s) (round w s) (rounds round ws) empty (good w s valid)
        (λ s' v. rounds_good round good empty ws s' v)

-- The process has ended.
abbrev pub Exited : {S : Type 0} → Step S → Type 0
Exited (again s) = ⊥
Exited (exits code) = Unit

go_on-Exited :
    {Config S : Type 0} (r : List (Event Config) × Step S) (rest : S → List (Event Config) × Step S)
    → ((s : S) → Exited r.1 ⊎ Exited (rest s).1)
    → Exited (go_on r rest).1
go_on-Exited (events, exits code) rest ends = tt
go_on-Exited (events, again s) rest ends = elim (ends s) [ inl never ↦ elim never [ ] | inr e ↦ e ]

-- A script with a round that ends the process in every state ends the process.
pub rounds_exit :
    {Config W S : Type 0} (round : W → S → List (Event Config) × Step S) (before after : List W)
    (w : W)
    → ((s : S) → Exited (round w s).1)
    → (s : S) → Exited (rounds round (before ++ w ∷ after) s).1
unfolding rounds
rounds_exit round [] after w ends s =
    go_on-Exited (round w s) (rounds round after) (λ _. inl (ends s))
rounds_exit round (v ∷ before) after w ends s =
    go_on-Exited (round v s) (rounds round (before ++ w ∷ after))
      (λ s'. inr (rounds_exit round before after w ends s'))
