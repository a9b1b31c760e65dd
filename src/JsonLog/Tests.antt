-- ===== src/JsonLog/Tests.antt =====
-- Levels and chunks on small inputs: tests, and the theorems applied.
use pg_plugins.Base.{
  leb, ℕ, suc, length, ◌&&◌, none, ◌%◌, ◌+◌, if◌then◌else◌, ◌≡◌, refl, Bool, true, false, some,
  List, [], ◌∷◌, ◌++◌, arith, Bytes, codes, All,
}
use pg_plugins.JsonLog.Levels.{Levels, jsonlog_error_severity, is_log_level_output}
use pg_plugins.JsonLog.Chunks.{
  Write, Destination, Chunk, jsonlog_write_pipe_chunks, pipe_chunks, output_message,
}
use pg_plugins.Base.Int.{pos}
use pg_plugins.JsonLog.Server.{Server, ErrorData, setup_formatted_log_time}
use pg_plugins.JsonLog.Json.{leading_fields, json_buffer}
use pg_plugins.JsonLog.Hook.{jsonlog_write_json}
use pg_plugins.JsonLog.Members.{}
use pg_plugins.JsonLog.Object.{message_line, write_json_object}
use pg_plugins.JsonLog.Rank.{rank, min_rank}
use pg_plugins.JsonLog.Output.{Outgoing}
use pg_plugins.JsonLog.Sent.{collect, Fits, pipe_chunks_roundtrip}

abbrev levels : Levels
levels = record {
  debug5 = 10;
  debug4 = 11;
  debug3 = 12;
  debug2 = 13;
  debug1 = 14;
  log = 15;
  commerror = 16;
  info = 17;
  notice = 18;
  warning = 19;
  error = 21;
  fatal = 22;
  panic = 23;
}

-- LOG is written under a minimum of ERROR, not under one of FATAL.
log_test : (is_log_level_output levels 15 21 ≡ true) × (is_log_level_output levels 15 22 ≡ false)
unfolding is_log_level_output
log_test = (refl, refl)

severity_test :
    (jsonlog_error_severity levels 12 ≡ codes "DEBUG")
    × (jsonlog_error_severity levels 22 ≡ codes "FATAL")
    × (jsonlog_error_severity levels 9 ≡ codes "???")
unfolding jsonlog_error_severity
severity_test = (refl, refl, refl)

abbrev chunk : Bool → Bytes → Chunk
chunk is_last data_ = record { pid = 7; is_last = is_last; data_ = data_ }

output_test :
    output_message 6 2 7
      (record { to_stderr = true; redirection_done = true; is_logger = false })
      (codes "abcde")
    ≡ some (
        pipe_chunks
          (chunk false (codes "ab") ∷ chunk false (codes "cd") ∷ chunk true (codes "e") ∷ [])
        ∷ [])
unfolding output_message jsonlog_write_pipe_chunks
output_test = refl

pipe_chunks_roundtrip_example :
    (cs : List Chunk) × (jsonlog_write_pipe_chunks 6 2 7 (codes "abcde") ≡ some cs)
    × (collect (cs ++ chunk true (codes "z") ∷ [])
        ≡ some (codes "abcde", chunk true (codes "z") ∷ []))
    × All (Fits 2 7) cs
pipe_chunks_roundtrip_example =
    pipe_chunks_roundtrip 5 2 7 (codes "abcde") (chunk true (codes "z") ∷ []) (omega arith)
      (omega arith)

abbrev server : Server
server = record {
  levels = levels;
  escape_json = λ text. codes "\"" ++ text ++ codes "\"";
  print_int = λ _. codes "-1";
  print_unsigned = λ n. (48 + n % 10) ∷ [];
  print_hex = λ n. (48 + n % 10) ∷ [];
  format_utc = λ _. codes "2026-01-01T00:00:00.000Z";
  unpack_sql_state = λ _. codes "22012";
  backend_type_desc = λ _. codes "client backend";
  service_key = some (codes "svc");
  service_value = codes "db1";
  my_proc_port = none;
  my_proc = none;
  my_proc_pid = 7;
  my_start_time = 5;
  postmaster_pid = 1;
  my_backend_type = 3;
  b_bg_worker = 4;
  bgw_type = codes "worker";
  ps_display = codes "idle";
  txid = 0;
  query_id = pos 0;
  debug_query_string = some (codes "SELECT 1/0");
  application_name = none;
  log_min_messages = 19;
  log_min_error_statement = 21;
  log_error_verbosity = 1;
  pgerror_verbose = 2;
}

abbrev edata : ErrorData
edata = record {
  elevel = 21;
  sqlerrcode = 1;
  message = codes "division by zero";
  detail = none;
  detail_log = none;
  hint = none;
  context = none;
  internalquery = none;
  internalpos = pos 0;
  cursorpos = pos 0;
  hide_stmt = true;
  funcname = none;
  filename = none;
  lineno = pos 0;
}

-- The milliseconds take the place of the three zeros.
log_time_test : setup_formatted_log_time server 0 123456 ≡ codes "2026-01-01T00:00:00.123Z"
unfolding setup_formatted_log_time
log_time_test = refl

json_test :
    json_buffer server (codes "t") (codes "s") edata
    ≡ codes "{\"timestamp\":\"t\",\"svc\":\"db1\",\"pid\":7,\"session_id\":\"5.7\","
      ++ codes "\"session_start\":\"s\",\"error_severity\":\"ERROR\",\"state_code\":\"22012\","
      ++ codes "\"backend_type\":\"client backend\",\"query_id\":-1,"
      ++ codes "\"message\":\"division by zero\"}"
      ++ (10 ∷ [])
unfolding json_buffer leading_fields jsonlog_error_severity is_log_level_output
json_test = refl

abbrev console_only : Destination
console_only = record { to_stderr = true; redirection_done = false; is_logger = false }

abbrev example_length : ℕ
example_length = length (message_line server 0 123456 [] edata)

write_json_object_example :
    let logged =
      jsonlog_write_json (suc example_length) 10 server console_only 0 123456 [] true edata in
    let line = message_line server 0 123456 [] edata in
    let enabled = leb (min_rank levels server.log_min_messages) (rank levels edata.elevel) in
    (writes : List Write) × (logged.writes ≡ some writes)
    × (if enabled then Outgoing true false false 10 server.my_proc_pid line writes else writes ≡ [])
    × (logged.chained ≡ (enabled && true))
    × (logged.output_to_server ≡ false)
write_json_object_example =
    write_json_object example_length 10 server console_only 0 123456 [] true edata (omega arith)
      (omega arith) (omega arith) (omega arith)
