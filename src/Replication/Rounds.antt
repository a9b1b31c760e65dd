-- ===== src/Replication/Rounds.antt =====
-- receiver_raw/receiver_raw.c: the rounds in which the messages of a stream arrive.
use pg_plugins.Base.{
  ℕ, suc, ◌≡◌, ◌⊎◌, inl, inr, refl, sym, ap, ◌∙◌, Bool-cases, false, List, [], ◌∷◌, ◌++◌, Bytes,
  arith, append_assoc, append-nil, length,
}
use mathlib.Core.Path.{subst}
use pg_plugins.ReceiverRaw.Message.{Action, start_transaction, commit, reload_config}
use pg_plugins.ReceiverRaw.Loop.{
  Wakeup, no_data, timed_out, State, running, on_signals, reload, round, main_loop,
}
use pg_plugins.ReceiverRaw.Rounds.{ready}
use pg_plugins.ReceiverRaw.Exit.{NoTerm, on_signals-NoTerm, flags_ready, round_quiet}
use pg_plugins.Replication.Stream.{Carries, AreSendable, executed, IsWithin}
use pg_plugins.Replication.Replayed.{round-Carries}

-- The messages that carry some texts come in some rounds, split among them in any way, without SIGTERM.
pub data Arrives : List Wakeup → List Bytes → Type 0 where
  no_round : Arrives [] []
  next_round :
      {us : List Wakeup} {later : List Bytes} (u : Wakeup) (ts : List Bytes)
      → NoTerm u.early
      → NoTerm u.late
      → u.finish ≡ no_data
      → u.waited ≡ timed_out
      → Carries ts u.deliveries
      → Arrives us later
      → Arrives (u ∷ us) (ts ++ later)

-- Some actions are a number of transactions, in which some texts are executed; the configuration may be
-- reloaded between them.
pub data Transactions : List Action → List Bytes → ℕ → Type 0 where
  no_transaction : Transactions [] [] 0
  reloaded :
      {actions : List Action} {ts : List Bytes} {n : ℕ}
      → Transactions actions ts n
      → Transactions (reload_config ∷ actions) ts n
  transaction :
      {actions : List Action} {ts : List Bytes} {n : ℕ} (body : List Action)
      → IsWithin body
      → Transactions actions ts n
      → Transactions ((start_transaction ∷ body) ++ commit ∷ actions) (executed body ++ ts) (suc n)

AreSendable-parts : (ts us : List Bytes) → AreSendable (ts ++ us) → AreSendable ts × AreSendable us
AreSendable-parts [] us h = (tt, h)
AreSendable-parts (t ∷ ts) us (ht, h) =
    let (hts, hus) = AreSendable-parts ts us h in ((ht, hts), hus)

-- What the reload in front of a round adds to the trace.
ready-trace :
    (st : State) (u : Wakeup)
    → ((ready st u).worker.trace ≡ st.worker.trace)
      ⊎ ((ready st u).worker.trace ≡ st.worker.trace ++ reload_config ∷ [])
unfolding reload
ready-trace st u = elim (Bool-cases (on_signals st.flags u.early).got_sighup) [
  | inl up ↦ inr (ground arith)
  | inr down ↦ inl (ground arith)
]

-- The trace of a round, in front of later actions.
round-Transactions :
    (trace ready_trace after body actions : List Action) (ts : List Bytes) (n : ℕ)
    → (ready_trace ≡ trace) ⊎ (ready_trace ≡ trace ++ reload_config ∷ [])
    → after ≡ ready_trace ++ (start_transaction ∷ body) ++ commit ∷ []
    → IsWithin body
    → Transactions actions ts n
    → (all : List Action) × (after ++ actions ≡ trace ++ all)
      × Transactions all (executed body ++ ts) (suc n)
round-Transactions trace ready_trace after body actions ts n (inl same) e within later = (
  (start_transaction ∷ body) ++ commit ∷ actions,
  ap (λ a. a ++ actions) (e ∙ ap (λ r. r ++ (start_transaction ∷ body) ++ commit ∷ []) same)
      ∙ simp append_assoc,
  transaction body within later,
)
round-Transactions trace ready_trace after body actions ts n (inr same) e within later = (
  reload_config ∷ (start_transaction ∷ body) ++ commit ∷ actions,
  ap (λ a. a ++ actions) (e ∙ ap (λ r. r ++ (start_transaction ∷ body) ++ commit ∷ []) same)
      ∙ simp append_assoc,
  reloaded (transaction body within later),
)

main_loop-round :
    (st t : State) (u : Wakeup) (us : List Wakeup)
    → st.flags.got_sigterm ≡ false
    → round st u ≡ running t
    → main_loop st (u ∷ us) ≡ main_loop t us
unfolding main_loop
main_loop-round st t u us off ran = ground (arith, off, ran)

-- The worker goes on through the rounds, and has executed the texts in as many transactions.
pub main_loop-Arrives :
    (st : State) {us : List Wakeup} {ts : List Bytes}
    → st.flags.got_sigterm ≡ false
    → Arrives us ts
    → AreSendable ts
    → (t : State) × (actions : List Action) × (main_loop st us ≡ running t)
      × (t.worker.trace ≡ st.worker.trace ++ actions)
      × Transactions actions ts (length us)
unfolding main_loop
main_loop-Arrives st off no_round h =
    (st, [], rw off refl, sym (append-nil st.worker.trace), no_transaction)
main_loop-Arrives st off
      (next_round {us} {later} u ts early late nothing_more times_out carries rest) h =
    let (sendable, sendable') = AreSendable-parts ts later h in
    let quiet = flags_ready st u ∙ on_signals-NoTerm st.flags u.early early ∙ off in
    let (t, body, ran, trace, runs, within) =
      round-Carries st u ts quiet nothing_more times_out carries sendable in
    let (v, actions, went_on, trace', transactions) =
      main_loop-Arrives t (round_quiet st u t off early late ran) rest sendable' in
    let (all, whole, transactions') =
      round-Transactions st.worker.trace (ready st u).worker.trace t.worker.trace body actions later
        (length us) (ready-trace st u) trace within transactions in
    (
      v,
      all,
      main_loop-round st t u us off ran ∙ went_on,
      trace' ∙ whole,
      subst (λ first. Transactions all (first ++ later) (suc (length us))) runs transactions',
    )
