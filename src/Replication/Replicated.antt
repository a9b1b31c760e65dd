-- ===== src/Replication/Replicated.antt =====
-- decoder_raw/decoder_raw.c and receiver_raw/receiver_raw.c: from a transaction of the origin to the
-- transactions of the worker.
use pg_plugins.Base.{false, some, List, codes}
use pg_plugins.DecoderRaw.Callbacks.{DefElem, Startup}
use pg_plugins.ReceiverRaw.Loop.{Signal, Config, State, on_signals}
use pg_plugins.ReceiverRaw.Startup.{first_worker}

-- The option that the worker asks for.
abbrev pub without_transaction : DefElem
without_transaction = record { defname = codes "include_transaction"; arg = some (codes "off") }

-- The state in front of the loop.
abbrev first_state : Config → List Signal → State
first_state config early = record {
  flags = on_signals (record { got_sigterm = false; got_sighup = false }) early;
  config = config;
  worker = first_worker;
}
