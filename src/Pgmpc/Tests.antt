-- ===== src/Pgmpc/Tests.antt =====
-- pgmpc/pgmpc.c on small inputs: tests, and the theorems applied.
use pg_plugins.Base.{◌≡◌, refl, Bool, true, false, none, some, List, [], ◌∷◌, codes, arith}
use pg_plugins.Base.Int.{pos}
use pg_plugins.Pgmpc.Client
use pg_plugins.Pgmpc.Client.{
  Mpd, MpdSettings, Client, Status, returns, crashes, command, pgmpc_reset, pgmpc_print_error, run,
  check_connection, send_password, pgmpc_init, pgmpc_init_setof, pgmpc_init_setof_single,
}
use pg_plugins.Pgmpc.Functions.{switch_mode, pgmpc_random, pgmpc_ls, pgmpc_rm}
use pg_plugins.Pgmpc.Requests.{Request, mode, set, perform, undefined, session}
use pg_plugins.Pgmpc.Ownership.{IsReleased}
use pg_plugins.Pgmpc.Released.{pgmpc_add_crashes}

abbrev status : Status
status = record {
  state = Client.playing;
  is_random = true;
  is_repeat = false;
  is_single = false;
  is_consume = false;
  elapsed_time = 3;
  total_time = 60;
  song_pos = pos 4;
  volume = pos 50;
}

-- A server that accepts everything but the removal of a playlist, and lists two songs.
abbrev accepts_call : List Client.Call → Bool
accepts_call (Client.rm _ ∷ _) = false
accepts_call _ = true

abbrev mpd : Mpd
mpd = record {
  succeeds = accepts_call;
  no_error = λ _. true;
  status_of = λ _. some status;
  song_of = λ _. some (record { title = some (codes "t"); artist = none; album = none });
  listed = λ _. codes "a" ∷ codes "b" ∷ [];
}

abbrev settings : MpdSettings
settings = record {
  mpd_host = codes "localhost";
  mpd_port = 6600;
  mpd_password = [];
  mpd_timeout = 10;
}

abbrev idle : Client
idle = record {
  mpd_conn = false;
  mpd_status = none;
  calls = [];
  connections = 0;
  statuses = 0;
  songs = 0;
}

abbrev rsinfo : Client.ResultInfo
rsinfo = record { is_return_set_info = true; allows_materialize = true }

abbrev connect : Client.Call
connect = Client.new_connection (codes "localhost") 6600 10000

random_test : perform mpd settings Request.random idle ≡ (
  returns (mode false),
  record idle { calls = Client.set_random false ∷ Client.run_status ∷ connect ∷ [] },
)
unfolding perform pgmpc_random switch_mode
random_test = refl

ls_test :
    (perform mpd settings (Request.ls rsinfo []) idle).0
    ≡ returns (
        set
          (record { argnames = codes "uri" ∷ []; rows = (codes "a" ∷ []) ∷ (codes "b" ∷ []) ∷ [] }))
unfolding perform pgmpc_ls
ls_test = refl

-- The removal fails, and its report reads the freed connection.
rm_test :
    session mpd settings (Request.rm (some (codes "x")) ∷ Request.random ∷ []) idle
    ≡ undefined (record idle { calls = Client.rm (codes "x") ∷ connect ∷ [] })
unfolding session perform pgmpc_rm
rm_test = refl

abbrev requests : List Request
requests =
    Request.status true
    ∷ Request.rm (some (codes "x"))
    ∷ Request.set_volume 101
    ∷ Request.random
    ∷ []

idle-IsReleased : IsReleased idle
idle-IsReleased = ground arith

pgmpc_add_crashes_example :
    perform mpd settings (Request.add (some (codes "a.ogg"))) idle ≡ (crashes, idle)
pgmpc_add_crashes_example = pgmpc_add_crashes mpd settings (codes "a.ogg") idle idle-IsReleased
