-- ===== src/ReceiverRaw/Message.antt =====
-- receiver_raw/receiver_raw.c: `sendFeedback` and one round of the loop that receives data.
use pg_plugins.Base.{
  ℕ, ◌+◌, ◌*◌, ◌-◌, ◌%◌, ◌^◌, Bool, true, false, ◌||◌, not, Option, none, some, List, [], ◌∷◌, ◌++◌,
  Bytes, ltb, ◌==◌, if◌then◌else◌, length, get_elem?, drop,
}
use pg_plugins.Base.Memory.{◌>>=◌}
use pg_plugins.ReceiverRaw.Wire.{fe_sendint64, fe_recvint64}

-- The static variables `output_written_lsn`, `output_fsync_lsn` and `output_applied_lsn`.
pub record Positions : Type 0 where
  pub written : ℕ
  pub fsync : ℕ
  pub applied : ℕ

-- What the worker does to the server and to its database, in order.
pub data Action : Type 0 where
  start_transaction commit reload_config : Action
  execute : Bytes → Action
  execute_failed : Bytes → Action
  send : Bytes → Action

-- A struct timeval.
pub record TimeVal : Type 0 where
  pub tv_sec : ℕ
  pub tv_usec : ℕ

-- (POSTGRES_EPOCH_JDATE - UNIX_EPOCH_JDATE) * SECS_PER_DAY
abbrev pub epoch_offset : ℕ
epoch_offset = (2451545 - 2440588) * 86400

-- The result is an int64: a time before the year 2000 is negative.
unfoldable pub fe_get_current_timestamp : TimeVal → ℕ
fe_get_current_timestamp tp =
    ((tp.tv_sec + 2 ^ 64 - epoch_offset) % 2 ^ 64 * 1000000 + tp.tv_usec) % 2 ^ 64

-- One result of PQgetCopyData that is a message, with what the round meets: the clock,
-- whether PQputCopyData and PQflush send the reply, and whether SPI_execute returns: it raises an
-- ERROR otherwise, which aborts the transaction and ends the background worker with code 1.
pub record Delivery : Type 0 where
  pub copybuf : Bytes
  pub clock : TimeVal
  pub feedback_ok : Bool
  pub executes : Bool

-- `outstanding` counts the message buffers that libpq allocated and that were not freed.
pub record Worker : Type 0 where
  pub positions : Positions
  pub outstanding : ℕ
  pub trace : List Action

pub data Outcome : Type 0 where
  next : Worker → Outcome
  exited : ℕ → Worker → Outcome
  fault : Outcome  -- a read past the end of the message

abbrev pub act : Worker → Action → Worker
act w a = record w { trace = w.trace ++ a ∷ [] }

-- The message of sendFeedback: 'r', the three positions, the time, and no request of a reply.
unfoldable pub feedback_packet : Positions → ℕ → Bytes
feedback_packet p now =
    b'r'
    ∷ (fe_sendint64 p.written
        ++ (fe_sendint64 p.fsync ++ (fe_sendint64 p.applied ++ (fe_sendint64 now ++ (0 ∷ [])))))

-- False is the return of sendFeedback when the packet cannot be sent; the caller leaves then.
unfoldable pub send_feedback : Worker → ℕ → Bool → Worker × Bool
send_feedback w now feedback_ok =
    if feedback_ok then (act w (send (feedback_packet w.positions now)), true) else (w, false)

-- `output_written_lsn = Max(walEnd, output_written_lsn)`, and the two others follow.
unfoldable pub advance : ℕ → Positions → Positions
advance wal_end p =
    let written : ℕ = if ltb p.written wal_end then wal_end else p.written in
    record { written = written; fsync = written; applied = written }

-- libpq ends the message by a NUL, which is not counted in its length.
abbrev pub memory : Bytes → Bytes
memory copybuf = copybuf ++ 0 ∷ []

-- The C string that starts at a position: the bytes before the first NUL.
unfoldable pub c_string : Bytes → Bytes
c_string [] = []
c_string (c ∷ s) = if c == 0 then [] else c ∷ c_string s

abbrev pub moved : ℕ → Worker → Worker
moved wal_end w = record w { positions = advance wal_end w.positions }

unfoldable pub reply : Worker → Delivery → Bool → Outcome
unfolding send_feedback
reply w d wanted =
    if wanted
    then (let (w', sent) = send_feedback w (fe_get_current_timestamp d.clock) d.feedback_ok in
        if sent then next w' else exited 1 w)
    else next w

-- The outcome of a read: none is a fault.
abbrev pub or_fault : Option Outcome → Outcome
or_fault none = fault
or_fault (some o) = o

-- The branch of 'k'. The position is read before the length is tested.
unfoldable pub keepalive : Bool → Worker → Delivery → Option Outcome
unfolding reply
keepalive sync_mode w d = do
  let mem = memory d.copybuf
  wal_end ← fe_recvint64 mem 1
  if ltb (length d.copybuf) 18 then some (exited 1 w) else do
    requested ← get_elem? mem 17
    some (reply (moved wal_end w) d (not (requested == 0) || sync_mode))

-- The rest of the round, for 'w': the query is applied by SPI_execute.
unfoldable pub streamed : Worker → Delivery → Option Outcome
streamed w d = do
  let mem = memory d.copybuf
  wal_start ← fe_recvint64 mem 1
  wal_end ← fe_recvint64 mem 9
  if ltb (length d.copybuf) 26
      then some (exited 1 w)
      else if d.executes
      then some (next (moved wal_end (act w (execute (c_string (drop 25 mem))))))
      else some (exited 1 (act w (execute_failed (c_string (drop 25 mem)))))

unfoldable pub handle : Bool → Worker → Delivery → Outcome
unfolding keepalive streamed
handle sync_mode w d = or_fault do
  kind ← get_elem? (memory d.copybuf) 0
  let w' : Worker = record w { outstanding = w.outstanding + 1 }
  if kind == b'k'
      then keepalive sync_mode w' d
      else if kind == b'w'
      then streamed w' d
      else some (exited 1 w')
