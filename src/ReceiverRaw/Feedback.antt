-- ===== src/ReceiverRaw/Feedback.antt =====
-- What the server reads in a status update.
use pg_plugins.Base.{ℕ, ◌^◌, ◌<◌, ◌≡◌, refl, some, [], ◌∷◌, ◌++◌, Bytes, length, get_elem?}
use pg_plugins.ReceiverRaw.Wire.{fe_sendint64, fe_recvint64}
use pg_plugins.ReceiverRaw.Wire.RoundTrip.{recv-send}
use pg_plugins.ReceiverRaw.Message.{Positions, feedback_packet}

-- The fields of a status update, as the protocol of streaming replication lays them out.
pub record Decodes (packet : Bytes) (p : Positions) (now : ℕ) : Type 0 where
  pub size : length packet ≡ 34
  pub kind : get_elem? packet 0 ≡ some b'r'
  pub write : fe_recvint64 packet 1 ≡ some p.written
  pub flush : fe_recvint64 packet 9 ≡ some p.fsync
  pub apply : fe_recvint64 packet 17 ≡ some p.applied
  pub send_time : fe_recvint64 packet 25 ≡ some now
  pub no_reply : get_elem? packet 33 ≡ some 0

-- The field at `at` is the number behind `before`, a prefix of that length.
field_at :
    (before : Bytes) (i : ℕ) (rest : Bytes) (at : ℕ)
    → i < 2 ^ 64
    → length before ≡ at
    → fe_recvint64 (before ++ (fe_sendint64 i ++ rest)) at ≡ some i
field_at before i rest at h e = rw (← e) (recv-send before i rest h)

-- A status update is 34 bytes long, and the server reads in it the three positions, the time, and
-- that no reply is wanted, for numbers of 64 bits.
pub feedback_packet-Decodes :
    (p : Positions) (now : ℕ)
    → p.written < 2 ^ 64
    → p.fsync < 2 ^ 64
    → p.applied < 2 ^ 64
    → now < 2 ^ 64
    → Decodes (feedback_packet p now) p now
unfolding feedback_packet fe_sendint64
feedback_packet-Decodes p now w f a n =
    let zero' : Bytes = 0 ∷ [] in
    let r3 = fe_sendint64 now ++ zero' in
    let r2 = fe_sendint64 p.applied ++ r3 in
    let r1 = fe_sendint64 p.fsync ++ r2 in
    let b1 = b'r' ∷ fe_sendint64 p.written in
    let b2 = b1 ++ fe_sendint64 p.fsync in
    let b3 = b2 ++ fe_sendint64 p.applied in
    record {
      size = refl;
      kind = refl;
      write = field_at (b'r' ∷ []) p.written r1 1 w refl;
      flush = field_at b1 p.fsync r2 9 f refl;
      apply = field_at b2 p.applied r3 17 a refl;
      send_time = field_at b3 now zero' 25 n refl;
      no_reply = refl;
    }
