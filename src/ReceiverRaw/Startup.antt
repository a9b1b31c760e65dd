-- ===== src/ReceiverRaw/Startup.antt =====
-- receiver_raw/receiver_raw.c: receiver_raw_main, from its start to its end.
use pg_plugins.Base.{Bool, false, List, [], ◌∷◌, ◌++◌, Bytes, codes, not, if◌then◌else◌}
use pg_plugins.ReceiverRaw.Message.{Worker}
use pg_plugins.ReceiverRaw.Loop.{Signal, on_signals, Config, Wakeup, Run, stopped, main_loop}

-- The variables that are set at the start of the server.
pub record Settings : Type 0 where
  pub database : Bytes
  pub slot_name : Bytes
  pub conn_string : Bytes

-- What the start asks of the remote server: PQstatus of PQconnectdb is CONNECTION_OK, and
-- PQresultStatus of PQexec is PGRES_COPY_BOTH.
pub record Remote : Type 0 where
  pub connects : (conn_string : Bytes) → Bool
  pub copies_both : (query : Bytes) → Bool

-- The calls of the start, in order.
pub data Call : Type 0 where
  catch_sighup catch_sigterm unblock_signals finish clear : Call
  no_connection no_replication : Call
  initialize_connection connect execute_query : Bytes → Call

abbrev pub start_query : (slot_name : Bytes) → Bytes
start_query slot_name =
    codes "START_REPLICATION SLOT \""
    ++ (slot_name ++ codes "\" LOGICAL 0/0 (\"include_transaction\" 'off')")

-- InvalidXLogRecPtr is 0.
abbrev pub first_worker : Worker
first_worker = record {
  positions = record { written = 0; fsync = 0; applied = 0 };
  outstanding = 0;
  trace = [];
}

-- The calls in front of the loop, the loop on a script, with the signals that come during the start,
-- and the exit.
unfoldable pub receiver_raw_main :
    Settings → Remote → Config → (early : List Signal) → List Wakeup → List Call × Run
unfolding main_loop on_signals
receiver_raw_main settings remote config early wakeups =
    let connecting : List Call =
      catch_sighup
      ∷ catch_sigterm
      ∷ unblock_signals
      ∷ initialize_connection settings.database
      ∷ connect settings.conn_string
      ∷ [] in
    let query = start_query settings.slot_name in
    let flags = on_signals (record { got_sigterm = false; got_sighup = false }) early in
    if not (remote.connects settings.conn_string)
    then (connecting ++ finish ∷ no_connection ∷ [], stopped 1 first_worker)
    else if not (remote.copies_both query)
    then (connecting ++ execute_query query ∷ clear ∷ no_replication ∷ [], stopped 1 first_worker)
    else (
      connecting ++ execute_query query ∷ clear ∷ [],
      main_loop (record { flags = flags; config = config; worker = first_worker }) wakeups,
    )
