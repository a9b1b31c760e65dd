-- ===== src/Replication/Stream.antt =====
-- receiver_raw/receiver_raw.c on the stream of one transaction: what the worker executes is what the
-- messages carry.
use pg_plugins.Base.{
  ◌+◌, ◌≤◌, ◌≡◌, refl, sym, ap, ◌∙◌, Bool, true, false, not, ◌||◌, some, List, [], ◌∷◌, ◌++◌,
  append_assoc, append-nil, arith, Bytes, length, length-append, drop, drop-append, strchr, ◌==◌,
}
use mathlib.Core.Path.{subst}
use pg_plugins.ReceiverRaw.Message.{
  Action, start_transaction, commit, execute, execute_failed, send, reload_config, Delivery, Worker,
  next, act, memory, c_string, handle, reply, moved, feedback_packet, fe_get_current_timestamp,
}
use pg_plugins.ReceiverRaw.Branches.{kind_of, keepalive_whole, streamed_whole}
use pg_plugins.ReceiverRaw.Loop.{receive}

-- The messages that carry some texts, as the protocol has them: 'w', the two positions and the time,
-- then the text. Keepalive messages may stand between; the answer to one is sent. The texts are
-- executed without an error.
pub data Carries : List Bytes → List Delivery → Type 0 where
  ended : Carries [] []
  text_message :
      {texts : List Bytes} {ds : List Delivery} (header text : Bytes) (d : Delivery)
      → length header ≡ 24
      → d.copybuf ≡ b'w' ∷ (header ++ text)
      → d.executes ≡ true
      → Carries texts ds
      → Carries (text ∷ texts) (d ∷ ds)
  keepalive_message :
      {texts : List Bytes} {ds : List Delivery} (d : Delivery)
      → kind_of d.copybuf ≡ some b'k'
      → 18 ≤ length d.copybuf
      → d.feedback_ok ≡ true
      → Carries texts ds
      → Carries texts (d ∷ ds)

-- A text with a character and without NUL.
abbrev pub IsSendable : Bytes → Type 0
IsSendable text = (1 ≤ length text) × (strchr text 0 ≡ false)

abbrev pub AreSendable : List Bytes → Type 0
AreSendable [] = Unit
AreSendable (t ∷ ts) = IsSendable t × AreSendable ts

-- The statements executed, among the actions of the worker.
abbrev pub executed : List Action → List Bytes
executed [] = []
executed (execute text ∷ actions) = text ∷ executed actions
executed (start_transaction ∷ actions) = executed actions
executed (commit ∷ actions) = executed actions
executed (reload_config ∷ actions) = executed actions
executed (send _ ∷ actions) = executed actions
executed (execute_failed _ ∷ actions) = executed actions

-- No transaction begins, ends or is aborted among some actions.
abbrev pub IsWithin : List Action → Type 0
IsWithin [] = Unit
IsWithin (start_transaction ∷ actions) = ⊥
IsWithin (commit ∷ actions) = ⊥
IsWithin (reload_config ∷ actions) = IsWithin actions
IsWithin (execute _ ∷ actions) = IsWithin actions
IsWithin (send _ ∷ actions) = IsWithin actions
IsWithin (execute_failed _ ∷ actions) = ⊥

c_string-end : (text rest : Bytes) → strchr text 0 ≡ false → c_string (text ++ 0 ∷ rest) ≡ text
unfolding c_string strchr
c_string-end [] rest h = refl
c_string-end (c ∷ text) rest h = ground (arith, c_string-end text rest)

-- The query of a message.
query-message :
    (header text : Bytes)
    → length header ≡ 24
    → strchr text 0 ≡ false
    → c_string (drop 25 (memory (b'w' ∷ (header ++ text)))) ≡ text
query-message header text h no_nul =
    let behind : drop 24 (header ++ text ++ 0 ∷ []) ≡ text ++ 0 ∷ [] =
      subst (λ n. drop n (header ++ text ++ 0 ∷ []) ≡ text ++ 0 ∷ []) h
        (ap (drop (length header)) (append_assoc header text (0 ∷ []))
          ∙ drop-append header (text ++ 0 ∷ [])) in
    ap c_string behind ∙ c_string-end text [] no_nul

-- The worker has executed some texts, within its transaction.
abbrev pub Executes : Worker → List Bytes → Worker → Type 0
Executes w texts w' =
    (body : List Action) × (w'.trace ≡ w.trace ++ body) × (executed body ≡ texts) × IsWithin body

executed-append : (a b : List Action) → executed (a ++ b) ≡ executed a ++ executed b
executed-append [] b = refl
executed-append (execute text ∷ a) b = ap (λ ts. text ∷ ts) (executed-append a b)
executed-append (start_transaction ∷ a) b = executed-append a b
executed-append (commit ∷ a) b = executed-append a b
executed-append (reload_config ∷ a) b = executed-append a b
executed-append (send _ ∷ a) b = executed-append a b
executed-append (execute_failed _ ∷ a) b = executed-append a b

IsWithin-append : (a b : List Action) → IsWithin a → IsWithin b → IsWithin (a ++ b)
IsWithin-append [] b ha hb = hb
IsWithin-append (execute text ∷ a) b ha hb = IsWithin-append a b ha hb
IsWithin-append (start_transaction ∷ a) b ha hb = absurd ha
IsWithin-append (commit ∷ a) b ha hb = absurd ha
IsWithin-append (reload_config ∷ a) b ha hb = IsWithin-append a b ha hb
IsWithin-append (send _ ∷ a) b ha hb = IsWithin-append a b ha hb
IsWithin-append (execute_failed _ ∷ a) b ha hb = absurd ha

Executes-then :
    (w v u : Worker) (ts us : List Bytes)
    → Executes w ts v
    → Executes v us u
    → Executes w (ts ++ us) u
Executes-then w v u ts us (a, ea, xa, wa) (b, eb, xb, wb) = (
  a ++ b,
  eb ∙ ap (λ t. t ++ b) ea ∙ append_assoc w.trace a b,
  executed-append a b ∙ cc (xa, xb),
  IsWithin-append a b wa wb,
)

handle-text :
    (sync_mode : Bool) (w : Worker) (header text : Bytes) (d : Delivery)
    → length header ≡ 24
    → IsSendable text
    → d.copybuf ≡ b'w' ∷ (header ++ text)
    → d.executes ≡ true
    → (w' : Worker) × (handle sync_mode w d ≡ next w') × Executes w (text ∷ []) w'
unfolding handle
handle-text sync_mode w header text d h (some_text, no_nul) e runs =
    let v : Worker = record w { outstanding = w.outstanding + 1 } in
    let kind : kind_of d.copybuf ≡ some b'w' = rw e refl in
    let long : 26 ≤ length d.copybuf = rw e (omega (arith, length-append header text)) in
    let (p, at, done, _) = streamed_whole v d long in
    let query : c_string (drop 25 (memory d.copybuf)) ≡ text =
      rw e (query-message header text h no_nul) in
    (
      moved p (act v (execute text)),
      rw (kind, done runs, query),
      (execute text ∷ [], refl, refl, tt),
    )

reply-next :
    (w : Worker) (d : Delivery) (wanted : Bool)
    → d.feedback_ok ≡ true
    → (w' : Worker) × (reply w d wanted ≡ next w') × Executes w [] w'
unfolding reply
reply-next w d true e = (
  act w (send (feedback_packet w.positions (fe_get_current_timestamp d.clock))),
  ground arith,
  (send (feedback_packet w.positions (fe_get_current_timestamp d.clock)) ∷ [], refl, refl, tt),
)
reply-next w d false e = (w, ground arith, ([], sym (append-nil w.trace), refl, tt))

handle-keepalive :
    (sync_mode : Bool) (w : Worker) (d : Delivery)
    → kind_of d.copybuf ≡ some b'k'
    → 18 ≤ length d.copybuf
    → d.feedback_ok ≡ true
    → (w' : Worker) × (handle sync_mode w d ≡ next w') × Executes w [] w'
unfolding handle
handle-keepalive sync_mode w d kind long sent =
    let v : Worker = record w { outstanding = w.outstanding + 1 } in
    let (p, r, at, wants, done) = keepalive_whole v d sync_mode long in
    let (w', replied, nothing) = reply-next (moved p v) d (not (r == 0) || sync_mode) sent in
    (w', rw (kind, done, replied), nothing)

-- The worker takes every message of the stream, and executes the texts in order.
pub receive-Carries :
    (sync_mode : Bool) (w : Worker) {texts : List Bytes} {ds : List Delivery}
    → Carries texts ds
    → AreSendable texts
    → (w' : Worker) × (receive sync_mode w ds ≡ next w') × Executes w texts w'
unfolding receive
receive-Carries sync_mode w ended h = (w, refl, ([], sym (append-nil w.trace), refl, tt))
receive-Carries sync_mode w (text_message {texts} {ds} header text d long e runs rest)
      (ok_text, ok_rest) =
    let (v, handled, first) = handle-text sync_mode w header text d long ok_text e runs in
    let (u, received, others) = receive-Carries sync_mode v rest ok_rest in
    (u, rw (receive, handled, received), Executes-then w v u (text ∷ []) texts first others)
receive-Carries sync_mode w (keepalive_message {texts} {ds} d kind long sent rest) h =
    let (v, handled, first) = handle-keepalive sync_mode w d kind long sent in
    let (u, received, others) = receive-Carries sync_mode v rest h in
    (u, rw (receive, handled, received), Executes-then w v u [] texts first others)
