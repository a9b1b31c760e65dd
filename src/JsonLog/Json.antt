-- ===== src/JsonLog/Json.antt =====
-- jsonlog/jsonlog.c: appendJSONLiteral, and the fields of the object that jsonlog_write_json writes,
-- each as the text that it appends.
use pg_plugins.Base.{
  Bool, true, false, not, ◌&&◌, Option, none, some, [], ◌∷◌, ◌++◌, Bytes, codes, leb, ◌==◌,
  if◌then◌else◌,
}
use pg_plugins.Base.Int.{ℤ, pos, ltb_ℤ}
use pg_plugins.JsonLog.Levels.{jsonlog_error_severity, is_log_level_output}
use pg_plugins.JsonLog.Server.{Server, ErrorData}

-- text[0] != '\0'
abbrev pub is_set : Bytes → Bool
is_set [] = false
is_set (_ ∷ _) = true

abbrev comma : Bytes
comma = codes ","

-- "\"key\":"
abbrev pub quoted_key : Bytes → Bytes
quoted_key key = codes "\"" ++ key ++ codes "\":"

-- `if (test)` and `if (pointer)` in front of what appends a text.
unfoldable pub append_when : Bool → Bytes → Bytes
append_when true text = text
append_when false text = []

unfoldable pub append_present : {A : Type 0} → Option A → (A → Bytes) → Bytes
append_present none text = []
append_present (some a) text = text a

module _ (server : Server) where
  open server use {escape_json, print_int, print_unsigned, print_hex}

  unfoldable pub append_json_literal : (key value : Bytes) (is_comma : Bool) → Bytes
  unfolding append_when
  append_json_literal key value is_comma =
      quoted_key key ++ escape_json value ++ append_when is_comma comma

  -- `if (value) appendJSONLiteral(&buf, key, value, true);`
  abbrev pub append_if_set : (key : Bytes) (value : Option Bytes) → Bytes
  append_if_set key value = append_present value (λ text. append_json_literal key text true)

  -- The same for a text that is also compared with the empty one.
  abbrev pub append_if_nonempty : (key : Bytes) (value : Option Bytes) → Bytes
  append_if_nonempty key value =
      append_present value (λ text. append_when (is_set text) (append_json_literal key text true))

  -- A key with a text that is not escaped, and a comma.
  unfoldable pub append_raw : (key text : Bytes) → Bytes
  append_raw key text = quoted_key key ++ text ++ comma

  -- The timestamp and the service.
  unfoldable pub service_fields : (log_time : Bytes) → Bytes
  unfolding append_when append_present append_json_literal
  service_fields log_time =
      append_json_literal (codes "timestamp") log_time true
      ++ append_present server.service_key
          (λ key. append_when (is_set key) (append_json_literal key server.service_value true))

  -- User, database, process and remote host.
  unfoldable pub connection_fields : Bytes
  unfolding append_when append_present append_json_literal append_raw
  connection_fields =
      append_present server.my_proc_port (λ port.
        append_if_set (codes "user") port.user_name
        ++ append_if_set (codes "dbname") port.database_name)
      ++ append_when (not (server.my_proc_pid == 0))
          (append_raw (codes "pid") (print_unsigned server.my_proc_pid))
      ++ append_present server.my_proc_port (λ port. append_present port.remote_host (λ host.
        append_json_literal (codes "remote_host") host true
        ++ append_if_nonempty (codes "remote_port") port.remote_port))

  -- The session: its id, the title of the process, and the start.
  unfoldable pub session_fields : (start_time : Bytes) → Bytes
  unfolding append_when append_present append_raw append_json_literal
  session_fields start_time =
      append_when (not (server.my_proc_pid == 0)) (
        append_raw (codes "session_id") (
          codes "\""
          ++ print_hex server.my_start_time
          ++ codes "."
          ++ print_hex server.my_proc_pid
          ++ codes "\""))
      ++ append_present server.my_proc_port
          (λ _. append_json_literal (codes "ps_display") server.ps_display true)
      ++ append_json_literal (codes "session_start") start_time true

  -- The virtual transaction and the transaction; InvalidTransactionId is 0.
  unfoldable pub transaction_fields : Bytes
  unfolding append_when append_present append_raw
  transaction_fields =
      append_present server.my_proc (λ proc. append_present proc.proc_number (λ number.
        append_raw (codes "vxid")
          (codes "\"" ++ print_int number ++ codes "/" ++ print_unsigned proc.lxid ++ codes "\"")))
      ++ append_when (not (server.txid == 0))
          (append_raw (codes "txid") (print_unsigned server.txid))

  -- `if (position > 0) appendStringInfo(&buf, "\"key\":%d,", position);`
  abbrev pub append_position : (key : Bytes) (position : ℤ) → Bytes
  append_position key position =
      append_when (ltb_ℤ (pos 0) position) (append_raw key (print_int position))

  -- `if (detail_log) ... else if (detail) ...`
  unfoldable pub detail_fields : (detail_log detail : Option Bytes) → Bytes
  unfolding append_when append_present append_json_literal
  detail_fields (some text) detail = append_json_literal (codes "detail_log") text true
  detail_fields none detail = append_if_set (codes "detail") detail

  -- From the severity to the context of the error.
  unfoldable pub error_fields : ErrorData → Bytes
  unfolding append_when append_present append_json_literal append_raw detail_fields
  error_fields edata =
      append_json_literal (codes "error_severity")
        (jsonlog_error_severity server.levels edata.elevel) true
      ++ append_when (not (edata.sqlerrcode == 0))
          (append_json_literal (codes "state_code") (server.unpack_sql_state edata.sqlerrcode) true)
      ++ detail_fields edata.detail_log edata.detail
      ++ append_if_set (codes "hint") edata.hint
      ++ append_present edata.internalquery (λ query.
        append_json_literal (codes "internal_query") query true
        ++ append_position (codes "internal_pos") edata.internalpos)
      ++ append_if_set (codes "context") edata.context

  -- The position in the statement: the cursor's, or else the internal one.
  unfoldable pub position_fields : (cursorpos internalpos : ℤ) → Bytes
  unfolding append_when append_present append_raw
  position_fields cursorpos internalpos =
      if ltb_ℤ (pos 0) cursorpos
      then append_raw (codes "cursor_position") (print_int cursorpos)
      else append_position (codes "internal_position") internalpos

  -- The statement of the user.
  unfoldable pub statement_fields : ErrorData → Bytes
  unfolding append_when append_present append_json_literal position_fields
  statement_fields edata = append_present server.debug_query_string (λ query.
      append_when
        (is_log_level_output server.levels edata.elevel server.log_min_error_statement
          && not edata.hide_stmt)
        (append_json_literal (codes "statement") query true
          ++ position_fields edata.cursorpos edata.internalpos))

  -- msgbuf of the location.
  unfoldable pub location_text : (funcname filename : Option Bytes) (lineno : ℤ) → Bytes
  location_text funcname none lineno = []
  location_text none (some filename) lineno = filename ++ codes ":" ++ print_int lineno
  location_text (some funcname) (some filename) lineno =
      funcname ++ codes ", " ++ filename ++ codes ":" ++ print_int lineno

  unfoldable pub location_fields : ErrorData → Bytes
  unfolding append_when append_present append_json_literal location_text
  location_fields edata = append_when (leb server.pgerror_verbose server.log_error_verbosity) (
      append_json_literal (codes "file_location")
        (location_text edata.funcname edata.filename edata.lineno) true)

  -- The type of the backend.
  unfoldable pub backend_type_text : Bytes
  backend_type_text =
      if server.my_proc_pid == server.postmaster_pid
      then codes "postmaster"
      else if server.my_backend_type == server.b_bg_worker
      then server.bgw_type
      else server.backend_type_desc server.my_backend_type

  -- Application name, backend type, leader (only for an active parallel worker) and query id.
  unfoldable pub process_fields : Bytes
  unfolding append_when append_present append_json_literal backend_type_text append_raw
  process_fields =
      append_if_nonempty (codes "application_name") server.application_name
      ++ append_json_literal (codes "backend_type") backend_type_text true
      ++ append_present server.my_proc (λ proc. append_present proc.leader_pid (λ pid.
        append_when (not (pid == server.my_proc_pid))
          (append_raw (codes "leader_pid") (print_unsigned pid))))
      ++ append_raw (codes "query_id") (print_int server.query_id)

  -- All fields but the last.
  unfoldable pub leading_fields : (log_time start_time : Bytes) → ErrorData → Bytes
  unfolding service_fields connection_fields session_fields transaction_fields error_fields
      statement_fields location_fields process_fields
  leading_fields log_time start_time edata =
      service_fields log_time
      ++ connection_fields
      ++ session_fields start_time
      ++ transaction_fields
      ++ error_fields edata
      ++ statement_fields edata
      ++ location_fields edata
      ++ process_fields

  -- The buffer, from the brace to the newline.
  unfoldable pub json_buffer : (log_time start_time : Bytes) → ErrorData → Bytes
  json_buffer log_time start_time edata =
      codes "{"
      ++ leading_fields log_time start_time edata
      ++ append_json_literal (codes "message") edata.message false
      ++ codes "}"
      ++ codes "\n"
