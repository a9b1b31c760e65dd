-- ===== src/Pgmpc/Requests.antt =====
-- pgmpc/pgmpc.c: the calls that a session makes of the SQL functions, one after another.
use pg_plugins.Base.{ℕ, Bool, Option, List, [], ◌∷◌, Bytes}
use pg_plugins.Pgmpc.Client.{
  Mpd, MpdSettings, Client, Outcome, returns, raises, crashes, reads_freed, M, ◌>>=◌, ◌>>◌, pure,
  ResultInfo, ResultSet,
}
use pg_plugins.Pgmpc.Functions.{
  StatusRow, pgmpc_status, pgmpc_play, pgmpc_pause, pgmpc_next, pgmpc_prev, pgmpc_update,
  pgmpc_random, pgmpc_repeat, pgmpc_single, pgmpc_consume, pgmpc_set_volume, pgmpc_ls,
  pgmpc_playlist, pgmpc_lsplaylists, pgmpc_add, pgmpc_load, pgmpc_save, pgmpc_rm, pgmpc_clear,
}

-- A call of a function, with its arguments; a NULL argument is none.
pub data Request : Type 0 where
  status : (returns_row : Bool) → Request
  play pause next prev random repeat single consume clear : Request
  update : List (Option Bytes) → Request
  set_volume : ℕ → Request
  ls playlist : ResultInfo → List (Option Bytes) → Request
  lsplaylists : ResultInfo → Request
  add load save rm : Option Bytes → Request

pub data Reply : Type 0 where
  done : Reply
  mode : Bool → Reply
  row : StatusRow → Reply
  set : ResultSet → Reply

abbrev pub done_by : M (Unit {0}) → M Reply
done_by m = do m; pure done

abbrev pub mode_by : M Bool → M Reply
mode_by m = do b ← m; pure (mode b)

abbrev pub set_by : M ResultSet → M Reply
set_by m = do s ← m; pure (set s)

-- How a session ends: behind all its requests, at a NULL pointer that libmpdclient was handed, or at
-- a read of freed memory, from which on the behaviour is undefined.
pub data End : Type 0 where
  ended : Client → End
  crashed : End
  undefined : Client → End

abbrev pub unless_stopped : Outcome Reply → End → Client → End
unless_stopped (returns _) end c = end
unless_stopped (raises _) end c = end
unless_stopped crashes end c = crashed
unless_stopped reads_freed end c = undefined c

module _ (mpd : Mpd) (settings : MpdSettings) where
  unfoldable pub perform : Request → M Reply
  perform (status returns_row) = do r ← pgmpc_status mpd settings returns_row; pure (row r)
  perform play = done_by (pgmpc_play mpd settings)
  perform pause = done_by (pgmpc_pause mpd settings)
  perform next = done_by (pgmpc_next mpd settings)
  perform prev = done_by (pgmpc_prev mpd settings)
  perform random = mode_by (pgmpc_random mpd settings)
  perform repeat = mode_by (pgmpc_repeat mpd settings)
  perform single = mode_by (pgmpc_single mpd settings)
  perform consume = mode_by (pgmpc_consume mpd settings)
  perform clear = done_by (pgmpc_clear mpd settings)
  perform (update args) = done_by (pgmpc_update mpd settings args)
  perform (set_volume volume) = done_by (pgmpc_set_volume mpd settings volume)
  perform (ls rsinfo args) = set_by (pgmpc_ls mpd settings rsinfo args)
  perform (playlist rsinfo args) = set_by (pgmpc_playlist mpd settings rsinfo args)
  perform (lsplaylists rsinfo) = set_by (pgmpc_lsplaylists mpd settings rsinfo)
  perform (add path) = done_by (pgmpc_add mpd settings path)
  perform (load name) = done_by (pgmpc_load mpd settings name)
  perform (save name) = done_by (pgmpc_save mpd settings name)
  perform (rm name) = done_by (pgmpc_rm mpd settings name)

  -- Requests in turn: an error ends only its own, a crash or a read of freed memory the session.
  unfoldable pub session : List Request → Client → End
  session [] c = ended c
  session (r ∷ rs) c = unless_stopped (perform r c).0 (session rs (perform r c).1) (perform r c).1
