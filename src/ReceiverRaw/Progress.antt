-- ===== src/ReceiverRaw/Progress.antt =====
-- What a batch of messages does to the positions, to the buffers and to the databases.
use native.Mathlib.Decide.{dec_lt}
use pg_plugins.Base.{
  ℕ, ◌+◌, ◌≤◌, ◌≡◌, inl, inr, refl, ap, sym, ◌∙◌, Bool, true, false, not, ◌||◌, none, some, List,
  [], ◌∷◌, ◌++◌, append_assoc, append-nil, arith, Bytes, length, get_elem?, drop, ◌==◌,
  if◌then◌else◌, Bool-cases,
}
use pg_plugins.ReceiverRaw.Wire.{fe_recvint64}
use pg_plugins.ReceiverRaw.Message.{
  Positions, Action, execute, send, Delivery, Worker, Outcome, next, exited, fault, advance, memory,
  c_string, handle, reply, feedback_packet, fe_get_current_timestamp, moved,
}
use pg_plugins.ReceiverRaw.Branches.{
  kind_of, get_some, length-memory, keepalive_short, keepalive_small, keepalive_whole,
  streamed_short, streamed_small, streamed_whole,
}
use pg_plugins.ReceiverRaw.Loop.{receive}

-- The number that stands at a position of a message.
unfoldable pub number_at : Bytes → ℕ → ℕ
number_at copybuf at = elim (fe_recvint64 (memory copybuf) at) [ none ↦ 0 | some n ↦ n ]

-- The first byte is 'k'.
unfoldable pub is_keepalive : Bytes → Bool
is_keepalive copybuf = elim (kind_of copybuf) [ none ↦ false | some c ↦ c == b'k' ]

-- The end of WAL that a message announces.
unfoldable pub wal_end : Bytes → ℕ
unfolding number_at is_keepalive
wal_end copybuf = if is_keepalive copybuf then number_at copybuf 1 else number_at copybuf 9

-- The server asks for a reply.
unfoldable pub wants_reply : Bytes → Bool
wants_reply copybuf = elim (get_elem? (memory copybuf) 17) [ none ↦ false | some r ↦ not (r == 0) ]

-- What the worker does for a message, its positions having moved to `p`.
unfoldable pub effect : Bool → Positions → Delivery → List Action
unfolding is_keepalive wants_reply
effect sync_mode p d =
    if is_keepalive d.copybuf
    then (if wants_reply d.copybuf || sync_mode
        then send (feedback_packet p (fe_get_current_timestamp d.clock)) ∷ []
        else [])
    else execute (c_string (drop 25 (memory d.copybuf))) ∷ []

-- The worker after a message that it took.
abbrev pub taken : Bool → Worker → Delivery → Worker
taken sync_mode w d =
    let p = advance (wal_end d.copybuf) w.positions in
    record {
      positions = p;
      outstanding = w.outstanding + 1;
      trace = w.trace ++ effect sync_mode p d;
    }

reply_next :
    (w : Worker) (d : Delivery) (wanted : Bool) (w' : Worker)
    → reply w d wanted ≡ next w'
    → w' ≡ record w {
      trace =
          w.trace
          ++ (if wanted
              then send (feedback_packet w.positions (fe_get_current_timestamp d.clock)) ∷ []
              else []);
    }
unfolding reply
reply_next w d true w' e = ground arith
reply_next w d false w' e = ground (arith, append-nil w.trace)

handle_next :
    (sync_mode : Bool) (w : Worker) (d : Delivery) (w' : Worker)
    → handle sync_mode w d ≡ next w'
    → w' ≡ taken sync_mode w d
unfolding handle effect wal_end
handle_next sync_mode w d w' h =
    let v : Worker = record w { outstanding = w.outstanding + 1 } in
    let (c, e) = get_some (memory d.copybuf) 0 (omega (arith, length-memory d.copybuf)) in
    elim (Bool-cases (c == b'k')) [
      | inl k ↦ elim (dec_lt (length d.copybuf) 8) [
        | yes short ↦ absurd (ground (arith, e, keepalive_short v d sync_mode short))
        | no long ↦ elim (dec_lt (length d.copybuf) 18) [
          | yes small ↦ absurd (ground (arith, e, keepalive_small v d sync_mode))
          | no whole ↦
              let (p, r, at, wants, done) = keepalive_whole v d sync_mode (omega arith) in
              ground
                (arith, e, at, wants, done, reply_next (moved p v) d (not (r == 0) || sync_mode) w')
        ]
      ]
      | inr not_k ↦ elim (Bool-cases (c == b'w')) [
        | inl s ↦ elim (dec_lt (length d.copybuf) 16) [
          | yes short ↦ absurd (ground (arith, e, streamed_short v d short))
          | no long ↦ elim (dec_lt (length d.copybuf) 26) [
            | yes small ↦ absurd (ground (arith, e, streamed_small v d))
            | no whole ↦
                let (p, at, done, raised) = streamed_whole v d (omega arith) in
                elim (Bool-cases d.executes) [
                  | inl runs ↦ ground (arith, e, at, done runs)
                  | inr fails ↦ absurd (ground (arith, e, raised fails))
                ]
          ]
        ]
        | inr not_s ↦ absurd (ground (arith, e))
      ]
    ]

-- The positions after the messages of a batch.
unfoldable pub positions_after : Positions → List Delivery → Positions
positions_after p [] = p
positions_after p (d ∷ ds) = positions_after (advance (wal_end d.copybuf) p) ds

-- What the worker does for them, in order.
unfoldable pub effects : Bool → Positions → List Delivery → List Action
effects sync_mode p [] = []
effects sync_mode p (d ∷ ds) =
    let p' = advance (wal_end d.copybuf) p in effect sync_mode p' d ++ effects sync_mode p' ds

pub effects-append :
    (sync_mode : Bool) (p : Positions) (ds es : List Delivery)
    → effects sync_mode p (ds ++ es)
      ≡ effects sync_mode p ds ++ effects sync_mode (positions_after p ds) es
unfolding effects positions_after
effects-append sync_mode p [] es = refl
effects-append sync_mode p (d ∷ ds) es =
    let p' = advance (wal_end d.copybuf) p in
    ap (λ (s : List Action). effect sync_mode p' d ++ s) (effects-append sync_mode p' ds es)
    ∙ sym (append_assoc (effect sync_mode p' d) (effects sync_mode p' ds) _)

-- The worker after a batch that did not stop it: the messages were handled in order, each with its
-- effect, and none of their buffers was freed.
abbrev pub batch_taken : Bool → Worker → List Delivery → Worker
batch_taken sync_mode w ds = record {
  positions = positions_after w.positions ds;
  outstanding = w.outstanding + length ds;
  trace = w.trace ++ effects sync_mode w.positions ds;
}

pub receive_next :
    (sync_mode : Bool) (w : Worker) (ds : List Delivery) (w' : Worker)
    → receive sync_mode w ds ≡ next w'
    → w' ≡ batch_taken sync_mode w ds
unfolding receive positions_after effects
receive_next sync_mode w [] w' h = ground (arith, append-nil w.trace)
receive_next sync_mode w (d ∷ ds) w' h =
    go (handle sync_mode w d) refl (λ v. receive_next sync_mode v ds w')
  where
    go :
        (o : Outcome)
        → handle sync_mode w d ≡ o
        → ((v : Worker) → receive sync_mode v ds ≡ next w' → w' ≡ batch_taken sync_mode v ds)
        → w' ≡ batch_taken sync_mode w (d ∷ ds)
    go (next v) e later = ground (
      arith,
      later v,
      handle_next sync_mode w d v e,
      append_assoc w.trace (effect sync_mode (advance (wal_end d.copybuf) w.positions) d)
          (effects sync_mode (advance (wal_end d.copybuf) w.positions) ds),
    )
    go (exited code v) e later = absurd (ground (arith, e))
    go fault e later = absurd (ground (arith, e))

abbrev pub AllLe : ℕ → List Delivery → Type 0
AllLe n [] = Unit
AllLe n (d ∷ ds) = (wal_end d.copybuf ≤ n) × AllLe n ds

-- The three positions are one.
abbrev pub AreLevel : Positions → Type 0
AreLevel p = (p.fsync ≡ p.written) × (p.applied ≡ p.written)

AreLevel-after : (p : Positions) (ds : List Delivery) → AreLevel p → AreLevel (positions_after p ds)
unfolding positions_after advance
AreLevel-after p [] h = h
AreLevel-after p (d ∷ ds) h = AreLevel-after (advance (wal_end d.copybuf) p) ds (refl, refl)

pub le-after : (p : Positions) (ds : List Delivery) → p.written ≤ (positions_after p ds).written
unfolding positions_after advance
le-after p [] = omega arith
le-after p (d ∷ ds) = ground (arith, le-after (advance (wal_end d.copybuf) p) ds)

covers-after : (p : Positions) (ds : List Delivery) → AllLe (positions_after p ds).written ds
unfolding positions_after advance
covers-after p [] = tt
covers-after p (d ∷ ds) = (
  ground (arith, le-after (advance (wal_end d.copybuf) p) ds),
  covers-after (advance (wal_end d.copybuf) p) ds,
)

-- Where a batch does not stop the worker, the written position has not gone back, covers the end of
-- WAL that each message announces, and the flushed and applied positions are equal to it if they
-- were before.
pub receive_progress :
    (sync_mode : Bool) (w : Worker) (ds : List Delivery) (w' : Worker)
    → receive sync_mode w ds ≡ next w'
    → (w.positions.written ≤ w'.positions.written)
      × AllLe w'.positions.written ds
      × (AreLevel w.positions → AreLevel w'.positions)
receive_progress sync_mode w ds w' h =
    rw (receive_next sync_mode w ds w' h)
      (le-after w.positions ds, covers-after w.positions ds, AreLevel-after w.positions ds)

-- No message buffer is freed: a batch of n messages leaves n more of them allocated.
receive_leaks :
    (sync_mode : Bool) (w : Worker) (ds : List Delivery) (w' : Worker)
    → receive sync_mode w ds ≡ next w'
    → w'.outstanding ≡ w.outstanding + length ds
receive_leaks sync_mode w ds w' h =
    ap (λ (v : Worker). v.outstanding) (receive_next sync_mode w ds w' h)
