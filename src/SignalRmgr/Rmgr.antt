-- ===== src/SignalRmgr/Rmgr.antt =====
-- signal_rmgr/signal_rmgr.c: the SQL function, and the callbacks on its WAL records.
use pg_plugins.Base.{
  ℕ, ◌+◌, ◌^◌, ◌%◌, Bool, not, ◌||◌, ◌&&◌, Option, none, some, List, [], ◌∷◌, ◌++◌, Bytes, codes,
  length, ◌==◌, if◌then◌else◌,
}
use pg_plugins.Base.Int.{ℤ, pos_part, neg_part}
use pg_plugins.Base.Result.{Result, ok, err, ◌>>=◌, ◌>>◌, raise_if}

-- xl_signal_smgr: its two first fields, and the bytes from `reason` on to the end of the record.
pub record XlSignalRmgr : Type 0 where
  pub signal : ℤ
  pub reason_size : ℕ
  pub reason : Bytes

pub record XLogRecord : Type 0 where
  pub info : ℕ
  pub data_ : XlSignalRmgr

-- The numbers of the signals, `info & ~XLR_INFO_MASK`, and the printing of C (%d, %zu, %u).
pub record Platform : Type 0 where
  pub sigkill : ℤ
  pub sighup : ℤ
  pub sigint : ℤ
  pub sigterm : ℤ
  pub rmgr_info : ℕ → ℕ
  pub print_int : ℤ → Bytes
  pub print_unsigned : ℕ → Bytes

pub data Event : Type 0 where
  log warning : Bytes → Event
  kill_postmaster : (signal : ℤ) → Event

-- ereport(ERROR), elog(PANIC), and a read past the end of the record.
pub data Failure : Type 0 where
  cannot_support_signal : ℤ → Failure
  unknown_op_code : (info : ℕ) → Failure
  fault : Failure

-- XLOG_SIGNAL_RMGR.
abbrev pub xlog_signal_rmgr : ℕ
xlog_signal_rmgr = 0

unfoldable pub eq_ℤ : ℤ → ℤ → Bool
eq_ℤ a b = pos_part a == pos_part b && neg_part a == neg_part b

-- The C string at the start of some bytes, or none where no NUL ends it.
unfoldable pub c_string_within : Bytes → Option Bytes
c_string_within [] = none
c_string_within (c ∷ s) =
    let rest = c_string_within s in
    if c == 0 then some [] else elim rest [ none ↦ none | some t ↦ some (c ∷ t) ]

unfoldable pub read_reason : Bytes → Result Failure Bytes
unfolding c_string_within
read_reason s = elim (c_string_within s) [ none ↦ err fault | some t ↦ ok t ]

module _ (platform : Platform) where
  -- The cases of the switch of check_signal_value.
  unfoldable pub authorized : ℤ → Bool
  unfolding eq_ℤ
  authorized signal =
      eq_ℤ signal platform.sigkill
      || eq_ℤ signal platform.sighup
      || eq_ℤ signal platform.sigint
      || eq_ℤ signal platform.sigterm

  unfoldable pub check_signal_value : ℤ → Result Failure (Unit {0})
  unfolding authorized
  check_signal_value signal =
      if authorized signal then ok tt else err (cannot_support_signal signal)

  -- `signal %d (%s) to postmaster (%d)`
  unfoldable pub sent_to : ℤ → Bytes → (postmaster_pid : ℤ) → Bytes
  sent_to signal reason postmaster_pid =
      codes "signal "
      ++ platform.print_int signal
      ++ codes " ("
      ++ reason
      ++ codes ") to postmaster ("
      ++ platform.print_int postmaster_pid
      ++ codes ")"

  -- The redo of a record, where kill gives the message of its error, or none where it succeeds.
  unfoldable pub signal_rmgr_redo : ℤ → Option Bytes → XLogRecord → Result Failure (List Event)
  unfolding check_signal_value sent_to read_reason
  signal_rmgr_redo postmaster_pid killed r = do
    let info = platform.rmgr_info r.info
    raise_if (not (info == xlog_signal_rmgr)) (unknown_op_code info)
    let xlrec = r.data_
    check_signal_value xlrec.signal
    reason ← read_reason xlrec.reason
    let sent = sent_to xlrec.signal reason postmaster_pid
    let report : Event = elim killed [
      | some message ↦ warning (codes "could not send " ++ sent ++ codes ": " ++ message)
      | none ↦ log (codes "sent " ++ sent)
    ]
    ok (
        log (
          codes "signal_rmgr_redo: signal "
          ++ platform.print_int xlrec.signal
          ++ codes ", reason "
          ++ reason)
        ∷ kill_postmaster xlrec.signal
        ∷ report
        ∷ [])

  -- What is appended to the buffer.
  unfoldable pub signal_rmgr_desc : XLogRecord → Result Failure Bytes
  unfolding read_reason
  signal_rmgr_desc r =
      let xlrec = r.data_ in
      let described = read_reason xlrec.reason >>= λ reason. ok (
        codes "signal "
        ++ platform.print_int xlrec.signal
        ++ codes "; "
        ++ codes "reason "
        ++ reason
        ++ codes " ("
        ++ platform.print_unsigned xlrec.reason_size
        ++ codes " bytes)") in
      if platform.rmgr_info r.info == xlog_signal_rmgr then described else ok []

  unfoldable pub signal_rmgr_identify : ℕ → Option Bytes
  signal_rmgr_identify info =
      if platform.rmgr_info info == xlog_signal_rmgr then some (codes "XLOG_SIGNAL_RMGR") else none

  -- The record that the SQL function inserts: the header, then the reason with its NUL.
  unfoldable pub signal_rmgr : (signal : ℤ) (reason : Bytes) → Result Failure XLogRecord
  unfolding check_signal_value
  signal_rmgr signal reason = do
    check_signal_value signal
    let size = (length reason + 1) % 2 ^ 64
    ok (record {
      info = xlog_signal_rmgr;
      data_ = record { signal = signal; reason_size = size; reason = reason ++ 0 ∷ [] };
    })
