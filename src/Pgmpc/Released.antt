-- ===== src/Pgmpc/Released.antt =====
-- pgmpc/pgmpc.c: what is left allocated behind the SQL functions, and the crash of pgmpc_add.
use pg_plugins.Base.{◌≡◌, some, Bytes, ◌⊎◌}
use pg_plugins.Pgmpc.Client
use pg_plugins.Pgmpc.Client.{Mpd, MpdSettings, Client, crashes, ◌>>◌, command, run}
use pg_plugins.Pgmpc.Functions.{pgmpc_add}
use pg_plugins.Pgmpc.Requests.{Request, End, ended, undefined, perform}
use pg_plugins.Pgmpc.Requests
use pg_plugins.Pgmpc.Ownership.{IsReleased, Reports}

-- Any request but pgmpc_add with a path.
abbrev pub IsUsable : Request → Type 0
IsUsable (Request.add (some _)) = ⊥
IsUsable _ = Unit

module _ (mpd : Mpd) (settings : MpdSettings) where
  -- A session goes through its requests, or stops at the report of an error of mpd.
  abbrev pub EndsReleased : End → Type 0
  EndsReleased e = (c : Client) × ((e ≡ ended c) ⊎ ((e ≡ undefined c) × Reports mpd)) × IsReleased c

  -- Where no connection is open, pgmpc_add with a path crashes: it hands libmpdclient the NULL
  -- connection, and the server receives nothing.
  pub pgmpc_add_crashes :
      (path : Bytes) (c : Client)
      → IsReleased c
      → perform mpd settings (Request.add (some path)) c ≡ (crashes, c)
  unfolding perform pgmpc_add run command
  pgmpc_add_crashes path c r = rw r.no_connection
