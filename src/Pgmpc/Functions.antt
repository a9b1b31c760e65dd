-- ===== src/Pgmpc/Functions.antt =====
-- pgmpc/pgmpc.c: the SQL functions, up to pgmpc_clear.
use pg_plugins.Base.{
  ℕ, ◌+◌, ◌-◌, Bool, true, false, not, Option, none, some, List, [], ◌∷◌, ◌++◌, Bytes, codes, ltb,
  if◌then◌else◌,
}
use pg_plugins.Base.Int.{ℤ, pos, ◌+ℤ◌}
use pg_plugins.Pgmpc.Client.{
  Call, pause, next, previous, update, set_random, set_repeat, set_single, set_consume, set_volume,
  list_all, list_playlist_meta, list_queue_meta, list_playlists, add, load, save, rm, clear,
  run_status, command_list_begin, send_status, send_current_song, command_list_end, recv_status,
  recv_song, recv_playlist, response_next, response_finish, PlayState, playing, paused, Status,
  Song, Mpd, MpdSettings, not_row_type, volume_out_of_range, song_path_missing, playlist_missing, M,
  returns, ◌>>=◌, ◌>>◌, pure, raise, raise_if, command, pgmpc_reset, pgmpc_print_error, run,
  check_connection, pgmpc_init, ResultInfo, ResultSet, pgmpc_init_setof_single,
}

-- The row of pgmpc_status; none is NULL.
pub record StatusRow : Type 0 where
  pub title : Option Bytes
  pub artist : Option Bytes
  pub album : Option Bytes
  pub elapsed_time : Option ℕ
  pub total_time : Option ℕ
  pub song_pos : Option ℤ
  pub volume : Option ℤ

-- PG_NARGS() == 1 && !PG_ARGISNULL(0), and the argument's text; a NULL argument is none.
abbrev pub optional_text : List (Option Bytes) → Option Bytes
optional_text [] = none
optional_text (arg ∷ []) = arg
optional_text (_ ∷ _ ∷ _) = none

abbrev no_song : StatusRow
no_song = record {
  title = none;
  artist = none;
  album = none;
  elapsed_time = none;
  total_time = none;
  song_pos = none;
  volume = none;
}

abbrev pub is_current : PlayState → Bool
is_current playing = true
is_current paused = true
is_current _ = false

-- song_pos is an int, with an offset of 1 for the user.
abbrev song_row : Status → Song → StatusRow
song_row status song = record {
  title = song.title;
  artist = song.artist;
  album = song.album;
  elapsed_time = some status.elapsed_time;
  total_time = some status.total_time;
  song_pos = some (status.song_pos +ℤ pos 1);
  volume = some status.volume;
}

-- A song or a playlist of libmpdclient is allocated.
unfoldable pub song_allocated : M (Unit {0})
song_allocated c = (returns tt, record c { songs = c.songs + 1 })

-- mpd_song_free, mpd_playlist_free.
unfoldable pub song_freed : M (Unit {0})
song_freed c = (returns tt, record c { songs = c.songs - 1 })

-- The loop of a listing: a song or playlist is received, its row is put into the set, and it is
-- freed; the loop leaves at NULL.
unfoldable pub fetch_rows : Call → List Bytes → ResultSet → M ResultSet
unfolding command song_allocated song_freed
fetch_rows receive [] set = do _ ← command receive (λ _. tt); pure set
fetch_rows receive (name ∷ names) set = do
  _ ← command receive (λ _. tt)
  song_allocated
  song_freed
  fetch_rows receive names (record set { rows = set.rows ++ (name ∷ []) ∷ [] })

module _ (mpd : Mpd) (settings : MpdSettings) where
  -- `mpd_status = ...; if (mpd_status == NULL) pgmpc_print_error();`
  unfoldable pub receive_status : Call → M Status
  unfolding command pgmpc_print_error
  receive_status call = do
    received ← command call mpd.status_of
    elim received [
      | none ↦ (λ c. pgmpc_print_error mpd (record c { mpd_status = none }))
      | some status ↦
          (λ c. pure status (record c { mpd_status = some status; statuses = c.statuses + 1 }))
    ]

  -- mpd_recv_song: a song is allocated where it is there.
  unfoldable pub receive_song : M (Option Song)
  unfolding command song_allocated
  receive_song = do
    received ← command recv_song mpd.song_of
    elim received [ none ↦ pure none | some song ↦ (do song_allocated; pure (some song)) ]

  -- The values of the row, from the song that follows the status.
  unfoldable pub status_song : Status → M StatusRow
  unfolding receive_song song_freed
  status_song status = do
    received ← receive_song
    elim received [ none ↦ pure no_song | some song ↦ (do song_freed; pure (song_row status song)) ]

  -- The song is asked for where one is playing or paused.
  unfoldable pub current_row : Status → M StatusRow
  unfolding run status_song
  current_row status =
      if is_current status.state
      then (do
        run mpd response_next
        found ← status_song status
        run mpd response_finish
        pure found)
      else pure no_song

  unfoldable pub pgmpc_status : (returns_row : Bool) → M StatusRow
  unfolding pgmpc_init run receive_status current_row pgmpc_reset
  pgmpc_status returns_row = do
    raise_if (not returns_row) not_row_type
    pgmpc_init mpd settings
    run mpd (command_list_begin true)
    run mpd send_status
    run mpd send_current_song
    run mpd command_list_end
    status ← receive_status recv_status
    row ← current_row status
    pgmpc_reset
    pure row

  -- pgmpc_init, one command, and the cleanup.
  unfoldable pub run_once : Call → M (Unit {0})
  unfolding pgmpc_init run pgmpc_reset
  run_once call = do pgmpc_init mpd settings; run mpd call; pgmpc_reset

  unfoldable pub pgmpc_play : M (Unit {0})
  unfolding run_once
  pgmpc_play = run_once (pause false)

  unfoldable pub pgmpc_pause : M (Unit {0})
  unfolding run_once
  pgmpc_pause = run_once (pause true)

  unfoldable pub pgmpc_next : M (Unit {0})
  unfolding run_once
  pgmpc_next = run_once next

  unfoldable pub pgmpc_prev : M (Unit {0})
  unfolding run_once
  pgmpc_prev = run_once previous

  unfoldable pub pgmpc_update : List (Option Bytes) → M (Unit {0})
  unfolding run_once
  pgmpc_update args = let path = optional_text args in run_once (update path)

  -- A mode of the server, switched: its value in the status, and the command that sets it.
  unfoldable pub switch_mode : (Status → Bool) → (Bool → Call) → M Bool
  unfolding pgmpc_init receive_status run pgmpc_reset
  switch_mode get_mode set_mode = do
    pgmpc_init mpd settings
    status ← receive_status run_status
    let is_on = get_mode status
    run mpd (set_mode (not is_on))
    pgmpc_reset
    pure (not is_on)

  unfoldable pub pgmpc_random : M Bool
  unfolding switch_mode
  pgmpc_random = switch_mode (λ s. s.is_random) set_random

  unfoldable pub pgmpc_repeat : M Bool
  unfolding switch_mode
  pgmpc_repeat = switch_mode (λ s. s.is_repeat) set_repeat

  unfoldable pub pgmpc_single : M Bool
  unfolding switch_mode
  pgmpc_single = switch_mode (λ s. s.is_single) set_single

  unfoldable pub pgmpc_consume : M Bool
  unfolding switch_mode
  pgmpc_consume = switch_mode (λ s. s.is_consume) set_consume

  unfoldable pub pgmpc_set_volume : ℕ → M (Unit {0})
  unfolding run_once
  pgmpc_set_volume volume = do
    raise_if (ltb 100 volume) volume_out_of_range
    run_once (set_volume volume)

  -- What the three listings have in common behind the choice of the command.
  unfoldable pub list_rows : (send receive : Call) → ResultSet → M ResultSet
  unfolding pgmpc_init run fetch_rows check_connection pgmpc_reset
  list_rows send receive set = do
    pgmpc_init mpd settings
    run mpd send
    found ← (λ c. fetch_rows receive (mpd.listed c.calls) set c)
    check_connection mpd
    pgmpc_reset
    pure found

  unfoldable pub pgmpc_ls : ResultInfo → List (Option Bytes) → M ResultSet
  unfolding pgmpc_init_setof_single list_rows
  pgmpc_ls rsinfo args = do
    let path = optional_text args
    set ← pgmpc_init_setof_single rsinfo (codes "uri")
    list_rows (list_all path) recv_song set

  unfoldable pub pgmpc_playlist : ResultInfo → List (Option Bytes) → M ResultSet
  unfolding pgmpc_init_setof_single list_rows
  pgmpc_playlist rsinfo args = do
    let playlist = optional_text args
    set ← pgmpc_init_setof_single rsinfo (codes "playlist")
    list_rows (elim playlist [ none ↦ list_queue_meta | some name ↦ list_playlist_meta name ])
        recv_song set

  unfoldable pub pgmpc_lsplaylists : ResultInfo → M ResultSet
  unfolding pgmpc_init_setof_single list_rows
  pgmpc_lsplaylists rsinfo = do
    set ← pgmpc_init_setof_single rsinfo (codes "playlist")
    list_rows list_playlists recv_playlist set

  -- The call of pgmpc_init is the body of the test for a NULL path, which text_to_cstring never gives.
  unfoldable pub pgmpc_add : Option Bytes → M (Unit {0})
  unfolding run pgmpc_reset
  pgmpc_add none = raise song_path_missing
  pgmpc_add (some path) = do run mpd (add path); pgmpc_reset

  unfoldable pub pgmpc_load : Option Bytes → M (Unit {0})
  unfolding run_once
  pgmpc_load none = raise playlist_missing
  pgmpc_load (some playlist) = run_once (load playlist)

  unfoldable pub pgmpc_save : Option Bytes → M (Unit {0})
  unfolding run_once
  pgmpc_save none = raise playlist_missing
  pgmpc_save (some playlist) = run_once (save playlist)

  unfoldable pub pgmpc_rm : Option Bytes → M (Unit {0})
  unfolding run_once
  pgmpc_rm none = raise playlist_missing
  pgmpc_rm (some playlist) = run_once (rm playlist)

  unfoldable pub pgmpc_clear : M (Unit {0})
  unfolding run_once
  pgmpc_clear = run_once clear
