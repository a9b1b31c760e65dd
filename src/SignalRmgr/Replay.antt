-- ===== src/SignalRmgr/Replay.antt =====
-- signal_rmgr/signal_rmgr.c: what the redo of a record does, and which signals it sends.
use pg_plugins.Base.{
  ℕ, ◌+◌, ◌<◌, ◌^◌, ◌%◌, ◌≡◌, ◌⊎◌, ◌↔◌, inl, inr, refl, ap, true, false, Option, none, some, List,
  [], ◌∷◌, ◌++◌, Bytes, codes, length, arith, strchr, ◌==◌,
}
use pg_plugins.Base.Int.{ℤ, pos, negsuc}
use pg_plugins.Base.Result.{Result-cases, ok}
use pg_plugins.SignalRmgr.Rmgr.{
  XLogRecord, Platform, Event, log, warning, kill_postmaster, xlog_signal_rmgr, eq_ℤ, authorized,
  c_string_within, read_reason, check_signal_value, sent_to, signal_rmgr_redo, signal_rmgr_desc,
  signal_rmgr_identify, signal_rmgr,
}

eq_ℤ→eq : (a b : ℤ) → eq_ℤ a b ≡ true → a ≡ b
unfolding eq_ℤ
eq_ℤ→eq (pos m) (pos n) h = let e : m ≡ n = ground arith in ap pos e
eq_ℤ→eq (negsuc m) (negsuc n) h = let e : m ≡ n = ground arith in ap negsuc e
eq_ℤ→eq (pos m) (negsuc n) h = absurd (ground arith)
eq_ℤ→eq (negsuc m) (pos n) h = absurd (ground arith)

eq_ℤ_refl : (a : ℤ) → eq_ℤ a a ≡ true
unfolding eq_ℤ
eq_ℤ_refl (pos m) = ground arith
eq_ℤ_refl (negsuc m) = ground arith

-- A C string with its NUL is read back.
c_string_within-append :
    (s rest : Bytes) → strchr s 0 ≡ false → c_string_within (s ++ 0 ∷ rest) ≡ some s
unfolding c_string_within strchr
c_string_within-append [] rest h = refl
c_string_within-append (c ∷ s) rest h =
    let read = c_string_within-append s rest (ground arith) in
    let other : (c == 0) ≡ false = ground arith in rw (read, other)

read_reason-append : (s : Bytes) → strchr s 0 ≡ false → read_reason (s ++ 0 ∷ []) ≡ ok s
unfolding read_reason
read_reason-append s h = rw (read_reason, c_string_within-append s [] h)

module _ (platform : Platform) where
  -- The signals that the extension is for.
  abbrev pub IsAuthorized : ℤ → Type 0
  IsAuthorized signal =
      (signal ≡ platform.sigkill)
      ⊎ (signal ≡ platform.sighup)
      ⊎ (signal ≡ platform.sigint)
      ⊎ (signal ≡ platform.sigterm)

  -- What the redo reports once kill has returned.
  abbrev pub outcome : (signal postmaster_pid : ℤ) (reason : Bytes) (killed : Option Bytes) → Event
  outcome signal pid reason none = log (codes "sent " ++ sent_to platform signal reason pid)
  outcome signal pid reason (some message) =
      warning
        (codes "could not send " ++ sent_to platform signal reason pid ++ codes ": " ++ message)

  -- What the redo of a record does.
  abbrev pub replayed :
      (signal postmaster_pid : ℤ) (reason : Bytes) (killed : Option Bytes) → List Event
  replayed signal pid reason killed =
      log (
        codes "signal_rmgr_redo: signal "
        ++ platform.print_int signal
        ++ codes ", reason "
        ++ reason)
      ∷ kill_postmaster signal
      ∷ outcome signal pid reason killed
      ∷ []

  authorized_iff : (signal : ℤ) → (authorized platform signal ≡ true) ↔ IsAuthorized signal
  unfolding authorized
  authorized_iff signal = (
    λ h. ground (
      h,
      arith,
      eq_ℤ→eq signal platform.sigkill,
      eq_ℤ→eq signal platform.sighup,
      eq_ℤ→eq signal platform.sigint,
      eq_ℤ→eq signal platform.sigterm,
    ),
    λ h. elim h [
      | inl e ↦ rw e (ground (arith, eq_ℤ_refl platform.sigkill))
      | inr (inl e) ↦ rw e (ground (arith, eq_ℤ_refl platform.sighup))
      | inr (inr (inl e)) ↦ rw e (ground (arith, eq_ℤ_refl platform.sigint))
      | inr (inr (inr e)) ↦ rw e (ground (arith, eq_ℤ_refl platform.sigterm))
    ],
  )

  signal_rmgr-authorized :
      (signal : ℤ) (reason : Bytes)
      → authorized platform signal ≡ true
      → signal_rmgr platform signal reason
        ≡ ok (record {
          info = xlog_signal_rmgr;
          data_ = record {
            signal = signal;
            reason_size = (length reason + 1) % 2 ^ 64;
            reason = reason ++ 0 ∷ [];
          };
        })
  unfolding signal_rmgr check_signal_value
  signal_rmgr-authorized signal reason h = rw h

  redo_lem :
      (signal postmaster_pid : ℤ) (size : ℕ) (reason : Bytes) (killed : Option Bytes)
      → platform.rmgr_info xlog_signal_rmgr ≡ xlog_signal_rmgr
      → authorized platform signal ≡ true
      → read_reason (reason ++ 0 ∷ []) ≡ ok reason
      → signal_rmgr_redo platform postmaster_pid killed (record {
        info = xlog_signal_rmgr;
        data_ = record { signal = signal; reason_size = size; reason = reason ++ 0 ∷ [] };
      })
        ≡ ok (replayed signal postmaster_pid reason killed)
  unfolding signal_rmgr_redo check_signal_value
  redo_lem signal postmaster_pid size reason none info allowed read =
      rw (signal_rmgr_redo, info, allowed, read)
  redo_lem signal postmaster_pid size reason (some message) info allowed read =
      rw (signal_rmgr_redo, info, allowed, read)

  -- The record that the SQL function inserts for an authorized signal and a reason, which has no NUL
  -- and fits its size, is replayed: the redo reads the reason back, logs it, sends that signal to the
  -- postmaster and reports how it went; the description has the signal, the reason and its size with
  -- the NUL, and the record is identified.
  pub signal_rmgr-redo :
      (signal postmaster_pid : ℤ) (reason : Bytes) (killed : Option Bytes)
      → platform.rmgr_info xlog_signal_rmgr ≡ xlog_signal_rmgr
      → IsAuthorized signal
      → strchr reason 0 ≡ false
      → length reason + 1 < 2 ^ 64
      → (r : XLogRecord) × (signal_rmgr platform signal reason ≡ ok r)
        × (signal_rmgr_redo platform postmaster_pid killed r
            ≡ ok (replayed signal postmaster_pid reason killed))
        × (signal_rmgr_desc platform r
            ≡ ok (
                codes "signal "
                ++ platform.print_int signal
                ++ codes "; "
                ++ codes "reason "
                ++ reason
                ++ codes " ("
                ++ platform.print_unsigned (length reason + 1)
                ++ codes " bytes)"))
        × (signal_rmgr_identify platform r.info ≡ some (codes "XLOG_SIGNAL_RMGR"))
  unfolding signal_rmgr_desc signal_rmgr_identify
  signal_rmgr-redo signal postmaster_pid reason killed info allowed no_nul fits =
      let allows = (authorized_iff signal).1 allowed in
      let read = read_reason-append reason no_nul in
      let size : (length reason + 1) % 2 ^ 64 ≡ length reason + 1 = omega arith in
      (
        _,
        signal_rmgr-authorized signal reason allows,
        redo_lem signal postmaster_pid _ reason killed info allows read,
        rw (signal_rmgr_desc, info, read, size),
        rw (signal_rmgr_identify, info),
      )

  -- The signals sent to the postmaster.
  abbrev pub sent_signals : List Event → List ℤ
  sent_signals [] = []
  sent_signals (kill_postmaster signal ∷ events) = signal ∷ sent_signals events
  sent_signals (_ ∷ events) = sent_signals events

  -- An ended redo has read a reason, sent the signal of the record and reported.
  redo-allowed :
      (postmaster_pid : ℤ) (killed : Option Bytes) (r : XLogRecord) (events : List Event)
      → signal_rmgr_redo platform postmaster_pid killed r ≡ ok events
      → authorized platform r.data_.signal ≡ true
  unfolding signal_rmgr_redo check_signal_value
  redo-allowed postmaster_pid killed r events done = ground (arith, done)

  redo-replayed :
      (postmaster_pid : ℤ) (killed : Option Bytes) (r : XLogRecord) (events : List Event)
      → signal_rmgr_redo platform postmaster_pid killed r ≡ ok events
      → (reason : Bytes) × (events ≡ replayed r.data_.signal postmaster_pid reason killed)
  unfolding signal_rmgr_redo check_signal_value
  redo-replayed postmaster_pid none r events done =
      elim (Result-cases (read_reason r.data_.reason)) [
        | inl (reason, read) ↦ (reason, ground (arith, done, read))
        | inr (e, failed) ↦ absurd (ground (arith, done, failed))
      ]
  redo-replayed postmaster_pid (some message) r events done =
      elim (Result-cases (read_reason r.data_.reason)) [
        | inl (reason, read) ↦ (reason, ground (arith, done, read))
        | inr (e, failed) ↦ absurd (ground (arith, done, failed))
      ]

  sent_signals-replayed :
      (signal postmaster_pid : ℤ) (reason : Bytes) (killed : Option Bytes)
      → sent_signals (replayed signal postmaster_pid reason killed) ≡ signal ∷ []
  sent_signals-replayed signal postmaster_pid reason none = refl
  sent_signals-replayed signal postmaster_pid reason (some message) = refl

  -- Whatever the record holds: a redo that ends without an error has sent one signal, that of the
  -- record, and it is one of the authorized signals.
  pub redo-IsAuthorized :
      (postmaster_pid : ℤ) (killed : Option Bytes) (r : XLogRecord) (events : List Event)
      → signal_rmgr_redo platform postmaster_pid killed r ≡ ok events
      → (sent_signals events ≡ r.data_.signal ∷ []) × IsAuthorized r.data_.signal
  redo-IsAuthorized postmaster_pid killed r events done =
      let (reason, same) = redo-replayed postmaster_pid killed r events done in
      (
        rw same (sent_signals-replayed r.data_.signal postmaster_pid reason killed),
        (authorized_iff r.data_.signal).0 (redo-allowed postmaster_pid killed r events done),
      )
