-- ===== src/Workers/Loop.antt =====
-- The background workers: what they do, as a trace of events, and the rounds of their loops. What a
-- round meets is an element of a script.
use pg_plugins.Base.{ℕ, Bool, List, [], ◌∷◌, ◌++◌, Bytes}
use pg_plugins.Base.Int.{ℤ}

pub data Signal : Type 0 where
  sighup sigterm : Signal

-- got_sigterm and got_sighup.
pub record Flags : Type 0 where
  pub got_sigterm : Bool
  pub got_sighup : Bool

-- What SPI_execute gives: SPI_OK_SELECT with the rows that were selected, or another code.
pub data SpiResult (Row : Type 0) : Type 0 where
  ok_select : List Row → SpiResult Row
  other_code : ℤ → SpiResult Row

-- The calls of the server; `Config` is what the configuration file holds for the worker.
pub data Event (Config : Type 0) : Type 0 where
  wait_latch : (timeout_ms : ℕ) → Event Config
  reset_latch start_timestamp start_transaction spi_connect push_snapshot : Event Config
  process_config : Config → Event Config
  report_running execute : Bytes → Event Config
  log : Bytes → Event Config
  spi_finish pop_snapshot commit report_idle : Event Config

-- A round goes on to the next, or the process ends with an exit code.
pub data Step (S : Type 0) : Type 0 where
  again : S → Step S
  exits : ℕ → Step S

-- The events of a round in front of those of what follows it, where it goes on.
abbrev pub go_on :
    {Config S : Type 0}
    → List (Event Config) × Step S
    → (S → List (Event Config) × Step S)
    → List (Event Config) × Step S
go_on (events, again s) rest = (events ++ (rest s).0, (rest s).1)
go_on (events, exits code) rest = (events, exits code)

unfoldable pub rounds :
    {Config W S : Type 0}
    → (W → S → List (Event Config) × Step S)
    → List W
    → S
    → List (Event Config) × Step S
rounds round [] s = ([], again s)
rounds round (w ∷ ws) s = go_on (round w s) (rounds round ws)
