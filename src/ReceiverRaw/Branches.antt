-- ===== src/ReceiverRaw/Branches.antt =====
-- The branches of one round of the inner loop, by the length of the message.
use pg_plugins.Base.{
  List, ℕ, zero, suc, ◌+◌, ◌≤◌, ◌<◌, ◌≡◌, ◌≢◌, ◌↔◌, ◌⊎◌, inl, inr, refl, Bool, not, ◌||◌, Option,
  none, some, true, false, [], ◌∷◌, arith, Bytes, length, length-append, get_elem?, drop, ◌==◌,
  Bool-cases, Option-cases,
}
use native.Mathlib.Decide.{dec_lt}
use pg_plugins.ReceiverRaw.Wire.{fe_recvint64}
use pg_plugins.ReceiverRaw.Wire.RoundTrip.{recv_bounds}
use pg_plugins.ReceiverRaw.Loop.{receive}
use pg_plugins.ReceiverRaw.Message.{Outcome}
use pg_plugins.ReceiverRaw.Message.{
  execute, execute_failed, Delivery, Worker, next, exited, fault, act, memory, c_string, handle,
  keepalive, streamed, reply, moved,
}

-- What a message is, by its first byte.
abbrev pub kind_of : Bytes → Option ℕ
kind_of copybuf = get_elem? (memory copybuf) 0

pub length-memory : (m : Bytes) → length (memory m) ≡ length m + 1
length-memory m = length-append m (0 ∷ [])

pub get_some : (buf : Bytes) (i : ℕ) → i < length buf → (x : ℕ) × (get_elem? buf i ≡ some x)
get_some [] i h = absurd (omega arith)
get_some (x ∷ buf) zero h = (x, refl)
get_some (x ∷ buf) (suc i) h = get_some buf i (omega arith)

recv_some : (buf : Bytes) (at : ℕ) → at + 8 ≤ length buf → (v : ℕ) × (fe_recvint64 buf at ≡ some v)
recv_some buf at h = elim (Option-cases (fe_recvint64 buf at)) [
  | inl bad ↦ absurd (omega (arith, (recv_bounds buf at).0 bad))
  | inr found ↦ found
]

module _ (w : Worker) (d : Delivery) where
  abbrev pub mem : Bytes
  mem = memory d.copybuf

  pub keepalive_short : (sync_mode : Bool) → length d.copybuf < 8 → keepalive sync_mode w d ≡ none
  unfolding keepalive
  keepalive_short sync_mode h = rw ((recv_bounds mem 1).1 (omega (arith, length-memory d.copybuf)))

  pub keepalive_small :
      (sync_mode : Bool)
      → 8 ≤ length d.copybuf
      → length d.copybuf < 18
      → keepalive sync_mode w d ≡ some (exited 1 w)
  unfolding keepalive
  keepalive_small sync_mode h h' =
      let (e, found) = recv_some mem 1 (omega (arith, length-memory d.copybuf)) in
      rw found (ground arith)

  -- A whole keepalive message moves the positions and is answered.
  pub keepalive_whole :
      (sync_mode : Bool)
      → 18 ≤ length d.copybuf
      → (e : ℕ) × (r : ℕ) × (fe_recvint64 mem 1 ≡ some e)
        × (get_elem? mem 17 ≡ some r)
        × (keepalive sync_mode w d ≡ some (reply (moved e w) d (not (r == 0) || sync_mode)))
  unfolding keepalive
  keepalive_whole sync_mode h =
      let (e, found) = recv_some mem 1 (omega (arith, length-memory d.copybuf)) in
      let (r, wanted) = get_some mem 17 (omega (arith, length-memory d.copybuf)) in
      (e, r, found, wanted, rw (found, wanted) (ground arith))

  pub streamed_short : length d.copybuf < 16 → streamed w d ≡ none
  unfolding streamed
  streamed_short h = elim (Option-cases (fe_recvint64 mem 1)) [
    | inl bad ↦ rw bad
    | inr (s, found) ↦ rw (found, (recv_bounds mem 9).1 (omega (arith, length-memory d.copybuf)))
  ]

  pub streamed_small :
      16 ≤ length d.copybuf → length d.copybuf < 26 → streamed w d ≡ some (exited 1 w)
  unfolding streamed
  streamed_small h h' =
      let (s, started) = recv_some mem 1 (omega (arith, length-memory d.copybuf)) in
      let (e, found) = recv_some mem 9 (omega (arith, length-memory d.copybuf)) in
      rw (started, found) (ground arith)

  -- A whole streaming message is executed and moves the positions, or ends the worker by an error.
  pub streamed_whole :
      26 ≤ length d.copybuf
      → (e : ℕ) × (fe_recvint64 mem 9 ≡ some e)
        × (d.executes ≡ true
            → streamed w d ≡ some (next (moved e (act w (execute (c_string (drop 25 mem)))))))
        × (d.executes ≡ false
            → streamed w d ≡ some (exited 1 (act w (execute_failed (c_string (drop 25 mem))))))
  unfolding streamed
  streamed_whole h =
      let (s, started) = recv_some mem 1 (omega (arith, length-memory d.copybuf)) in
      let (e, found) = recv_some mem 9 (omega (arith, length-memory d.copybuf)) in
      (
        e,
        found,
        λ runs. rw (started, found) (ground arith),
        λ fails. rw (started, found) (ground arith),
      )

reply-ne-fault : (w : Worker) (d : Delivery) (wanted : Bool) → reply w d wanted ≢ fault
unfolding reply
reply-ne-fault w d wanted e = ground arith

-- A message reads memory that it does not have exactly where it is a keepalive of fewer than 8 bytes
-- or a streaming message of fewer than 16: the tests on the length come after the reads.
pub handle_fault :
    (sync_mode : Bool) (w : Worker) (d : Delivery)
    → (handle sync_mode w d ≡ fault) ↔ (
        ((kind_of d.copybuf ≡ some b'k') × (length d.copybuf < 8))
        ⊎ ((kind_of d.copybuf ≡ some b'w') × (length d.copybuf < 16)))
unfolding handle
handle_fault sync_mode w d =
    let w' : Worker = record w { outstanding = w.outstanding + 1 } in
    let (c, e) = get_some (memory d.copybuf) 0 (omega (arith, length-memory d.copybuf)) in
    elim (Bool-cases (c == b'k')) [
      | inl k ↦ elim (dec_lt (length d.copybuf) 8) [
        | yes short ↦ (
          λ f. inl (ground arith, short),
          λ h. ground (arith, e, keepalive_short w' d sync_mode short),
        )
        | no long ↦ elim (dec_lt (length d.copybuf) 18) [
          | yes small ↦ (
            λ f. absurd (ground (arith, e, keepalive_small w' d sync_mode)),
            λ h. absurd (ground arith),
          )
          | no whole ↦
              let (p, r, _, _, done) = keepalive_whole w' d sync_mode (omega arith) in
              (
                λ f. absurd (
                    ground
                      (arith, e, done, reply-ne-fault (moved p w') d (not (r == 0) || sync_mode))),
                λ h. absurd (ground arith),
              )
        ]
      ]
      | inr not_k ↦ elim (Bool-cases (c == b'w')) [
        | inl s ↦ elim (dec_lt (length d.copybuf) 16) [
          | yes short ↦
              (λ f. inr (ground arith, short), λ h. ground (arith, e, streamed_short w' d short))
          | no long ↦ elim (dec_lt (length d.copybuf) 26) [
            | yes small ↦
                (λ f. absurd (ground (arith, e, streamed_small w' d)), λ h. absurd (ground arith))
            | no whole ↦
                let (p, _, done, raised) = streamed_whole w' d (omega arith) in
                (
                  λ f. elim (Bool-cases d.executes) [
                    | inl runs ↦ absurd (ground (arith, e, done runs))
                    | inr fails ↦ absurd (ground (arith, e, raised fails))
                  ],
                  λ h. absurd (ground arith),
                )
          ]
        ]
        | inr not_s ↦ (λ f. absurd (ground (arith, e)), λ h. absurd (ground arith))
      ]
    ]

-- The loop leaves the worker with code 1 only.
pub handle_exit :
    (sync_mode : Bool) (w : Worker) (d : Delivery) (code : ℕ) (v : Worker)
    → handle sync_mode w d ≡ exited code v
    → code ≡ 1
unfolding handle
handle_exit sync_mode w d code v h = ground arith

pub receive_exit :
    (sync_mode : Bool) (w : Worker) (ds : List Delivery) (code : ℕ) (v : Worker)
    → receive sync_mode w ds ≡ exited code v
    → code ≡ 1
unfolding receive
receive_exit sync_mode w [] code v h = ground arith
receive_exit sync_mode w (d ∷ ds) code v h =
    go (handle sync_mode w d) refl (λ w'. receive_exit sync_mode w' ds code v)
  where
    go :
        (o : Outcome)
        → handle sync_mode w d ≡ o
        → ((w' : Worker) → receive sync_mode w' ds ≡ exited code v → code ≡ 1)
        → code ≡ 1
    go (next w') e later = later w' (ground (arith, e))
    go (exited c w') e later = ground (arith, e, handle_exit sync_mode w d c w' e)
    go fault e later = absurd (ground (arith, e))
