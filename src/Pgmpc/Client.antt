-- ===== src/Pgmpc/Client.antt =====
-- pgmpc/pgmpc.c: the connection and the status that the file keeps, what libmpdclient answers, and
-- pgmpc_init, pgmpc_reset, pgmpc_print_error and pgmpc_init_setof.
use pg_plugins.Base.{
  ℕ, ◌+◌, ◌-◌, ◌*◌, Bool, true, false, Option, none, some, List, [], ◌∷◌, Bytes, if◌then◌else◌, not,
}
use pg_plugins.Base.Int.{ℤ}

-- The calls of libmpdclient that reach the server.
pub data Call : Type 0 where
  new_connection : (host : Bytes) (port timeout_ms : ℕ) → Call
  password save load rm add list_playlist_meta : Bytes → Call
  pause set_random set_repeat set_single set_consume command_list_begin : Bool → Call
  next previous clear list_queue_meta list_playlists : Call
  update list_all : Option Bytes → Call
  set_volume : ℕ → Call
  run_status send_status send_current_song command_list_end : Call
  recv_status recv_song recv_playlist response_next response_finish : Call

pub data PlayState : Type 0 where
  unknown stopped playing paused : PlayState

-- struct mpd_status and struct mpd_song, by what is read of them.
pub record Status : Type 0 where
  pub state : PlayState
  pub is_random : Bool
  pub is_repeat : Bool
  pub is_single : Bool
  pub is_consume : Bool
  pub elapsed_time : ℕ
  pub total_time : ℕ
  pub song_pos : ℤ
  pub volume : ℤ

pub record Song : Type 0 where
  pub title : Option Bytes
  pub artist : Option Bytes
  pub album : Option Bytes

-- What libmpdclient answers, by the calls made so far, the latest first: whether the latest call
-- succeeded, whether the connection has no error, the status and the song received (none
-- for NULL), and the URIs or paths that a listing receives up to NULL.
pub record Mpd : Type 0 where
  pub succeeds : List Call → Bool
  pub no_error : List Call → Bool
  pub status_of : List Call → Option Status
  pub song_of : List Call → Option Song
  pub listed : List Call → List Bytes

-- The GUC variables.
pub record MpdSettings : Type 0 where
  pub mpd_host : Bytes
  pub mpd_port : ℕ
  pub mpd_password : Bytes
  pub mpd_timeout : ℕ

-- mpd_conn and mpd_status, the calls made, and the objects of libmpdclient that are allocated.
pub record Client : Type 0 where
  pub mpd_conn : Bool
  pub mpd_status : Option Status
  pub calls : List Call
  pub connections : ℕ
  pub statuses : ℕ
  pub songs : ℕ

pub data Error : Type 0 where
  not_row_type no_set_context no_materialize : Error
  volume_out_of_range song_path_missing playlist_missing : Error

-- A function of the file returns, raises an error, hands libmpdclient a NULL pointer, or reads memory
-- of libmpdclient that was freed.
pub data Outcome (A : Type 0) : Type 0 where
  returns : A → Outcome A
  raises : Error → Outcome A
  crashes : Outcome A
  reads_freed : Outcome A

abbrev pub M : Type 0 → Type 0
M A = Client → Outcome A × Client

abbrev pub after : {A B : Type 0} → Outcome A → (A → M B) → M B
after (returns a) f c = f a c
after (raises e) f c = (raises e, c)
after crashes f c = (crashes, c)
after reads_freed f c = (reads_freed, c)

infixl 5 ◌>>=◌ ◌>>◌
abbrev pub ◌>>=◌ : {A B : Type 0} → M A → (A → M B) → M B
◌>>=◌ m f c = after (m c).0 f (m c).1

abbrev pub ◌>>◌ : {B : Type 0} → M (Unit {0}) → M B → M B
m >> k = m >>= λ _. k

abbrev pub pure : {A : Type 0} → A → M A
pure a c = (returns a, c)

abbrev pub raise : {A : Type 0} → Error → M A
raise e c = (raises e, c)

abbrev pub raise_if : Bool → Error → M (Unit {0})
raise_if true e = raise e
raise_if false e = pure tt

-- A call on the connection, and what it answers.
unfoldable pub command : {A : Type 0} → Call → (List Call → A) → M A
command call answer c =
    if c.mpd_conn
    then (returns (answer (call ∷ c.calls)), record c { calls = call ∷ c.calls })
    else (crashes, c)

unfoldable pub pgmpc_reset : M (Unit {0})
pgmpc_reset c = (
  returns tt,
  record c {
    mpd_conn = false;
    mpd_status = none;
    connections = if c.mpd_conn then c.connections - 1 else c.connections;
    statuses = elim c.mpd_status [ none ↦ c.statuses | some _ ↦ c.statuses - 1 ];
  },
)

module _ (mpd : Mpd) where
  -- The message stays in the connection, which the cleanup frees: the report behind it, "mpd command
  -- failed", reads the message there.
  unfoldable pub pgmpc_print_error : {A : Type 0} → M A
  unfolding pgmpc_reset
  pgmpc_print_error c =
      if c.mpd_conn then (do pgmpc_reset; (λ c'. (reads_freed, c'))) c else (crashes, c)

  -- `if (!mpd_run_...(mpd_conn, ...)) pgmpc_print_error();`
  unfoldable pub run : Call → M (Unit {0})
  unfolding command pgmpc_print_error
  run call = do done ← command call mpd.succeeds; if done then pure tt else pgmpc_print_error

  -- The test of the connection's error, and the report.
  unfoldable pub check_connection : M (Unit {0})
  unfolding pgmpc_print_error
  check_connection c = if mpd.no_error c.calls then pure tt c else pgmpc_print_error c

  -- Nothing is sent for the empty password.
  unfoldable pub send_password : Bytes → M (Unit {0})
  unfolding run
  send_password [] = pure tt
  send_password (ch ∷ rest) = run (password (ch ∷ rest))

  unfoldable pub pgmpc_init : MpdSettings → M (Unit {0})
  unfolding check_connection send_password
  pgmpc_init settings c =
      let call = new_connection settings.mpd_host settings.mpd_port (settings.mpd_timeout * 1000) in
      let connected = record c {
        mpd_conn = true;
        calls = call ∷ c.calls;
        connections = c.connections + 1;
      } in
      (do check_connection; send_password settings.mpd_password) connected

-- fcinfo->resultinfo, where a function may return a set: whether it is a ReturnSetInfo, and its
-- allowedModes have SFRM_Materialize.
pub record ResultInfo : Type 0 where
  pub is_return_set_info : Bool
  pub allows_materialize : Bool

-- A set of rows under construction: the names of its columns, all of type text, and the rows.
pub record ResultSet : Type 0 where
  pub argnames : List Bytes
  pub rows : List (List Bytes)

unfoldable pub pgmpc_init_setof : ResultInfo → List Bytes → M ResultSet
pgmpc_init_setof rsinfo argnames = do
  raise_if (not rsinfo.is_return_set_info) no_set_context
  raise_if (not rsinfo.allows_materialize) no_materialize
  pure (record { argnames = argnames; rows = [] })

unfoldable pub pgmpc_init_setof_single : ResultInfo → Bytes → M ResultSet
unfolding pgmpc_init_setof
pgmpc_init_setof_single rsinfo argname = pgmpc_init_setof rsinfo (argname ∷ [])
