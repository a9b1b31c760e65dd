-- ===== src/SignalRmgr/Tests.antt =====
-- Runs of signal_rmgr, and its theorems at concrete inputs.
use pg_plugins.Base.{◌≡◌, inl, inr, refl, none, some, [], ◌∷◌, ◌++◌, codes, arith, strchr}
use pg_plugins.Base.Int.{pos}
use pg_plugins.Base.Result.{ok, err}
use pg_plugins.SignalRmgr.Rmgr.{
  XLogRecord, Platform, cannot_support_signal, unknown_op_code, fault, signal_rmgr_redo,
  signal_rmgr_desc, signal_rmgr_identify, signal_rmgr,
}
use pg_plugins.SignalRmgr.Replay.{
  signal_rmgr-redo, redo-IsAuthorized, IsAuthorized, replayed, sent_signals,
}

-- The signals of Linux, with one digit for a number.
abbrev platform : Platform
platform = record {
  sigkill = pos 9;
  sighup = pos 1;
  sigint = pos 2;
  sigterm = pos 15;
  rmgr_info = λ info. info;
  print_int = λ _. codes "1";
  print_unsigned = λ _. codes "3";
}

abbrev hup : XLogRecord
hup = record {
  info = 0;
  data_ = record { signal = pos 1; reason_size = 3; reason = codes "hi" ++ 0 ∷ [] };
}

abbrev unterminated : XLogRecord
unterminated = record {
  info = 0;
  data_ = record { signal = pos 1; reason_size = 3; reason = codes "hi" };
}

signal_rmgr-redo_example :
    (r : XLogRecord) × (signal_rmgr platform (pos 1) (codes "hi") ≡ ok r)
    × (signal_rmgr_redo platform (pos 1) none r
        ≡ ok (replayed platform (pos 1) (pos 1) (codes "hi") none))
    × (signal_rmgr_desc platform r ≡ ok (codes "signal 1; reason hi (3 bytes)"))
    × (signal_rmgr_identify platform r.info ≡ some (codes "XLOG_SIGNAL_RMGR"))
unfolding strchr
signal_rmgr-redo_example =
    signal_rmgr-redo platform (pos 1) (pos 1) (codes "hi") none refl (inr (inl refl)) refl
      (ground arith)

redo-IsAuthorized_example :
    (sent_signals platform
        (replayed platform (pos 1) (pos 1) (codes "hi") (some (codes "no such process")))
      ≡ pos 1 ∷ [])
    × IsAuthorized platform (pos 1)
unfolding signal_rmgr_redo
redo-IsAuthorized_example =
    redo-IsAuthorized platform (pos 1) (some (codes "no such process")) hup
      (replayed platform (pos 1) (pos 1) (codes "hi") (some (codes "no such process"))) refl

refused_test : signal_rmgr platform (pos 10) (codes "hi") ≡ err (cannot_support_signal (pos 10))
unfolding signal_rmgr
refused_test = refl

unknown_op_code_test :
    signal_rmgr_redo platform (pos 1) none (record hup { info = 16 }) ≡ err (unknown_op_code 16)
unfolding signal_rmgr_redo
unknown_op_code_test = refl

unterminated_test : signal_rmgr_redo platform (pos 1) none unterminated ≡ err fault
unfolding signal_rmgr_redo
unterminated_test = refl
