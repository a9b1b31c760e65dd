-- ===== src/JsonLog/Hook.antt =====
-- jsonlog/jsonlog.c: jsonlog_write_json, the hook.
use pg_plugins.Base.{ℕ, Bool, false, Option, some, List, [], Bytes, if◌then◌else◌}
use pg_plugins.JsonLog.Levels.{is_log_level_output}
use pg_plugins.JsonLog.Server.{
  Server, ErrorData, setup_formatted_log_time, setup_formatted_start_time,
}
use pg_plugins.JsonLog.Json.{json_buffer}
use pg_plugins.JsonLog.Chunks.{Destination, Write, output_message}

-- What jsonlog_write_json leaves: output_to_server, formatted_start_time, what it has written, and
-- whether it has called the hook that was there before.
pub record Logged : Type 0 where
  pub output_to_server : Bool
  pub formatted_start_time : Bytes
  pub writes : Option (List Write)
  pub chained : Bool

-- The fuel and the payload of a chunk are those of jsonlog_write_pipe_chunks, the seconds and
-- microseconds those of gettimeofday; formatted_start_time is kept between two calls.
unfoldable pub jsonlog_write_json :
    (fuel max : ℕ)
    → Server
    → Destination
    → (tv_sec tv_usec : ℕ) (formatted_start_time : Bytes) (has_prev_hook : Bool) → ErrorData
    → Logged
unfolding setup_formatted_log_time setup_formatted_start_time json_buffer
jsonlog_write_json fuel max server dest tv_sec tv_usec formatted_start_time has_prev_hook edata =
    let log_time = setup_formatted_log_time server tv_sec tv_usec in
    let start_time = setup_formatted_start_time server formatted_start_time in
    let buf = json_buffer server log_time start_time edata in
    if is_log_level_output server.levels edata.elevel server.log_min_messages
    then record {
      output_to_server = false;
      formatted_start_time = start_time;
      writes = output_message fuel max server.my_proc_pid dest buf;
      chained = has_prev_hook;
    }
    else record {
      output_to_server = false;
      formatted_start_time = formatted_start_time;
      writes = some [];
      chained = false;
    }
