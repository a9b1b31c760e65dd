-- ===== src/JsonLog/Server.antt =====
-- jsonlog/jsonlog.c: what the hook reads of the server, and the two formatted times.
use pg_plugins.Base.{ℕ, ◌+◌, ◌/◌, ◌%◌, Bool, Option, [], ◌∷◌, ◌++◌, Bytes, take, drop, length}
use pg_plugins.Base.Int.{ℤ}
use pg_plugins.JsonLog.Levels.{Levels}

-- What is read of MyProcPort; none is NULL.
pub record Port : Type 0 where
  pub user_name : Option Bytes
  pub database_name : Option Bytes
  pub remote_host : Option Bytes
  pub remote_port : Option Bytes

-- What is read of MyProc: procNumber, none where it is INVALID_PROC_NUMBER, lxid, and the pid of
-- lockGroupLeader.
pub record Proc : Type 0 where
  pub proc_number : Option ℤ
  pub lxid : ℕ
  pub leader_pid : Option ℕ

-- The server: its functions, the printing of C, and its variables.
pub record Server : Type 0 where
  pub levels : Levels
  pub escape_json : Bytes → Bytes
  pub print_int : ℤ → Bytes
  pub print_unsigned : ℕ → Bytes
  pub print_hex : ℕ → Bytes
  pub format_utc : ℕ → Bytes
  pub unpack_sql_state : ℕ → Bytes
  pub backend_type_desc : ℕ → Bytes
  pub service_key : Option Bytes
  pub service_value : Bytes
  pub my_proc_port : Option Port
  pub my_proc : Option Proc
  pub my_proc_pid : ℕ
  pub my_start_time : ℕ
  pub postmaster_pid : ℕ
  pub my_backend_type : ℕ
  pub b_bg_worker : ℕ
  pub bgw_type : Bytes
  pub ps_display : Bytes
  pub txid : ℕ
  pub query_id : ℤ
  pub debug_query_string : Option Bytes
  pub application_name : Option Bytes
  pub log_min_messages : ℕ
  pub log_min_error_statement : ℕ
  pub log_error_verbosity : ℕ
  pub pgerror_verbose : ℕ

-- ErrorData, by the fields that are read; ERRCODE_SUCCESSFUL_COMPLETION is 0.
pub record ErrorData : Type 0 where
  pub elevel : ℕ
  pub sqlerrcode : ℕ
  pub message : Bytes
  pub detail : Option Bytes
  pub detail_log : Option Bytes
  pub hint : Option Bytes
  pub context : Option Bytes
  pub internalquery : Option Bytes
  pub internalpos : ℤ
  pub cursorpos : ℤ
  pub hide_stmt : Bool
  pub funcname : Option Bytes
  pub filename : Option Bytes
  pub lineno : ℤ

-- sprintf(msbuf, ".%03d", n), for n below 1000.
unfoldable pub milliseconds : ℕ → Bytes
milliseconds n = b'.' ∷ (48 + n / 100 % 10) ∷ (48 + n / 10 % 10) ∷ (48 + n % 10) ∷ []

-- memcpy(text + at, part, length part).
unfoldable pub paste : ℕ → Bytes → Bytes → Bytes
paste at part text = take at text ++ part ++ drop (at + length part) text

-- formatted_log_time, from the seconds and microseconds of gettimeofday.
unfoldable pub setup_formatted_log_time : Server → (tv_sec tv_usec : ℕ) → Bytes
unfolding paste milliseconds
setup_formatted_log_time server tv_sec tv_usec =
    paste 19 (milliseconds (tv_usec / 1000)) (server.format_utc tv_sec)

-- formatted_start_time is filled once.
unfoldable pub setup_formatted_start_time : Server → Bytes → Bytes
setup_formatted_start_time server [] = server.format_utc server.my_start_time
setup_formatted_start_time server (ch ∷ rest) = ch ∷ rest
