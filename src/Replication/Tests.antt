-- ===== src/Replication/Tests.antt =====
-- One transaction on a concrete server, and the start of the worker.
use pg_plugins.Base.{
  ◌≡◌, refl, true, false, none, some, List, [], ◌∷◌, ◌++◌, Bytes, codes, str_eq, if◌then◌else◌,
}
use pg_plugins.Base.Int.{pos}
use pg_plugins.DecoderRaw.Types.{
  Backend, identity_nothing, identity_index, int4_oid, Attribute, Relation, change_insert,
  change_update, HeapTuple, Event, textual_output,
}
use pg_plugins.DecoderRaw.Callbacks.{Startup, in_context, written}
use pg_plugins.ReceiverRaw.Message.{Delivery}
use pg_plugins.ReceiverRaw.Loop.{
  State, Config, Wakeup, no_data, timed_out, sigterm, State, stopped, main_loop, on_signals,
}
use pg_plugins.ReceiverRaw.Startup.{
  Settings, Remote, catch_sighup, catch_sigterm, unblock_signals, initialize_connection, connect,
  execute_query, clear, start_query, first_worker, receiver_raw_main,
}
use pg_plugins.Replication.Transaction.{Item, row_change, truncation, Statements}

abbrev backend : Backend Bytes
backend = record {
  typisvarlena = λ typid. false;
  is_external_ondisk = λ d. false;
  detoast = λ d. d;
  output = λ typid d. d;
  sql_str_double = λ ch escape_backslash. false;
  quote_identifier = λ name. name;
  quote_qualified_identifier = λ space name. space ++ (codes "." ++ name);
  namespace_name = λ relid. codes "public";
  parse_bool = λ s. if str_eq s (codes "off") then some false else none;
}

abbrev id_column : Attribute
id_column = record {
  attname = codes "id";
  atttypid = int4_oid;
  attisdropped = false;
  attnum = pos 1;
}

abbrev table : Relation
table = record {
  relid = 1;
  relname = codes "r";
  relreplident = identity_index;
  replidindex = some (1 ∷ []);
  attrs = id_column ∷ [];
}

abbrev row : HeapTuple Bytes
row natt = some (codes "7")

-- An insertion, an update of a table without identity, which is skipped, and a truncation.
abbrev changes : List (Item Bytes)
changes =
    row_change table (record {
      action = change_insert;
      oldtuple = none;
      newtuple = some row;
      restart_seqs = false;
      cascade = false;
    })
    ∷ row_change (record table { relreplident = identity_nothing; replidindex = none })
        (record {
          action = change_update;
          oldtuple = none;
          newtuple = some row;
          restart_seqs = false;
          cascade = false;
        })
    ∷ truncation (table ∷ table ∷ []) false true
    ∷ []

abbrev started : Startup
started = record {
  data_ = record { context = 1; include_transaction = false };
  output_type = textual_output;
}

abbrev inserted : Bytes
inserted = codes "INSERT INTO public.r (id) VALUES (7);"

abbrev emptied : Bytes
emptied = codes "TRUNCATE public.r, public.r CASCADE;"

abbrev events : List Event
events =
    in_context started.data_ 9 (written inserted)
    ++ (in_context started.data_ 9 [] ++ (in_context started.data_ 9 (written emptied) ++ []))
    ++ []

abbrev header : Bytes
header =
    0 ∷ 0 ∷ 0 ∷ 0 ∷ 0 ∷ 0 ∷ 0 ∷ 100 ∷ 0 ∷ 0 ∷ 0 ∷ 0 ∷ 0 ∷ 0 ∷ 0 ∷ 200 ∷ 0 ∷ 0 ∷ 0 ∷ 0 ∷ 0 ∷ 0 ∷ 0
    ∷ 0 ∷ []

abbrev ping : Bytes
ping = b'k' ∷ 0 ∷ 0 ∷ 0 ∷ 0 ∷ 0 ∷ 0 ∷ 0 ∷ 150 ∷ 0 ∷ 0 ∷ 0 ∷ 0 ∷ 0 ∷ 0 ∷ 0 ∷ 0 ∷ 1 ∷ []

abbrev deliver : Bytes → Delivery
deliver m = record {
  copybuf = m;
  clock = record { tv_sec = 1000000000; tv_usec = 5 };
  feedback_ok = true;
  executes = true;
}

abbrev config : Config
config = record { idle_time = 100; sync_mode = true }

abbrev wakeup : Wakeup
wakeup = record {
  early = [];
  config_file = config;
  deliveries =
      deliver (b'w' ∷ (header ++ inserted))
      ∷ deliver ping
      ∷ deliver (b'w' ∷ (header ++ emptied))
      ∷ [];
  finish = no_data;
  waited = timed_out;
  late = [];
}

abbrev settings : Settings
settings = record { database = codes "db"; slot_name = codes "s"; conn_string = codes "c" }

abbrev reachable : Remote
reachable = record {
  connects = λ conn_string. true;
  copies_both =
      str_eq (codes "START_REPLICATION SLOT \"s\" LOGICAL 0/0 (\"include_transaction\" 'off')");
}

-- The insertion and a keepalive, then the truncation in a round of its own.
abbrev wakeups : List Wakeup
wakeups =
    record wakeup { deliveries = deliver (b'w' ∷ (header ++ inserted)) ∷ deliver ping ∷ [] }
    ∷ record wakeup { deliveries = deliver (b'w' ∷ (header ++ emptied)) ∷ [] }
    ∷ []

start_test :
    (receiver_raw_main settings reachable config (sigterm ∷ []) (wakeup ∷ []) ≡ (
      catch_sighup
          ∷ catch_sigterm
          ∷ unblock_signals
          ∷ initialize_connection (codes "db")
          ∷ connect (codes "c")
          ∷ execute_query (start_query (codes "s"))
          ∷ clear
          ∷ [],
      stopped 0 first_worker,
    ))
    × ((receiver_raw_main settings (record reachable { connects = λ _. false }) config [] []).1
        ≡ stopped 1 first_worker)
    × ((receiver_raw_main (record settings { slot_name = codes "t" }) reachable config [] []).1
        ≡ stopped 1 first_worker)
unfolding receiver_raw_main str_eq main_loop on_signals
start_test = (refl, refl, refl)
