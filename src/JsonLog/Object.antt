-- ===== src/JsonLog/Object.antt =====
-- jsonlog/jsonlog.c: the object that describes a message, and the line that is written for it.
use pg_plugins.Base.{
  ℕ, suc, ◌≤◌, ◌<◌, ◌⊎◌, ◌∙◌, length, ◌≡◌, refl, Bool, false, not, ◌&&◌, Option, none, some, List,
  [], ◌++◌, Bytes, codes, leb, ◌==◌, if◌then◌else◌, Bool-cases, inl, inr, append-nil,
}
use pg_plugins.Base.Int.{ℤ, pos, ltb_ℤ}
use pg_plugins.JsonLog.Levels.{jsonlog_error_severity, is_log_level_output}
use pg_plugins.JsonLog.Server.{
  Server, ErrorData, setup_formatted_log_time, setup_formatted_start_time,
}
use pg_plugins.JsonLog.Json.{
  is_set, append_when, append_json_literal, service_fields, connection_fields, session_fields,
  transaction_fields, detail_fields, error_fields, position_fields, statement_fields, location_text,
  location_fields, backend_type_text, process_fields, leading_fields, json_buffer,
}
use pg_plugins.JsonLog.Rendering.{
  only, present, Renders, rendered, text_member, raw_member, rendering, Renders-append,
}
use pg_plugins.JsonLog.Hook.{jsonlog_write_json}
use pg_plugins.JsonLog.Chunks.{Destination, Write}
use pg_plugins.JsonLog.Rank.{rank, min_rank, is_log_level_output_lem}
use pg_plugins.JsonLog.Output.{Outgoing, output_message-Outgoing}
use pg_plugins.JsonLog.Members.{Member, object_line, object_line-with_commas}

module _ (server : Server) where
  open server use {print_int, print_unsigned, print_hex}

  abbrev text : Bytes → Bytes → List Member
  text = text_member server

  abbrev raw : Bytes → Bytes → List Member
  raw = raw_member server

  service_members : Bytes → List Member
  service_members log_time =
      text (codes "timestamp") log_time
      ++ present server.service_key (λ key. only (is_set key) (text key server.service_value))

  Renders-service :
      (log_time : Bytes) → Renders (service_fields server log_time) (service_members log_time)
  unfolding service_fields service_members
  Renders-service log_time = search rendering

  connection_members : List Member
  connection_members =
      present server.my_proc_port (λ port.
        present port.user_name (λ name. text (codes "user") name)
        ++ present port.database_name (λ name. text (codes "dbname") name))
      ++ only (not (server.my_proc_pid == 0))
          (raw (codes "pid") (print_unsigned server.my_proc_pid))
      ++ present server.my_proc_port (λ port. present port.remote_host (λ host.
        text (codes "remote_host") host
        ++ present port.remote_port
            (λ number. only (is_set number) (text (codes "remote_port") number))))

  Renders-connection : Renders (connection_fields server) connection_members
  unfolding connection_fields connection_members
  Renders-connection = search rendering depth 10

  session_members : Bytes → List Member
  session_members start_time =
      only (not (server.my_proc_pid == 0)) (
        raw (codes "session_id") (
          codes "\""
          ++ print_hex server.my_start_time
          ++ codes "."
          ++ print_hex server.my_proc_pid
          ++ codes "\""))
      ++ present server.my_proc_port (λ _. text (codes "ps_display") server.ps_display)
      ++ text (codes "session_start") start_time

  Renders-session :
      (start_time : Bytes) → Renders (session_fields server start_time) (session_members start_time)
  unfolding session_fields session_members
  Renders-session start_time = search rendering

  transaction_members : List Member
  transaction_members =
      present server.my_proc (λ proc. present proc.proc_number (λ number.
        raw (codes "vxid")
          (codes "\"" ++ print_int number ++ codes "/" ++ print_unsigned proc.lxid ++ codes "\"")))
      ++ only (not (server.txid == 0)) (raw (codes "txid") (print_unsigned server.txid))

  Renders-transaction : Renders (transaction_fields server) transaction_members
  unfolding transaction_fields transaction_members
  Renders-transaction = search rendering

  -- At most one detail, that of the log in front.
  detail_members : (detail_log detail : Option Bytes) → List Member
  detail_members (some t) detail = text (codes "detail_log") t
  detail_members none detail = present detail (λ t. text (codes "detail") t)

  Renders-detail :
      (detail_log detail : Option Bytes)
      → Renders (detail_fields server detail_log detail) (detail_members detail_log detail)
  unfolding detail_fields detail_members
  Renders-detail (some t) detail = search rendering
  Renders-detail none detail = search rendering

  position_member : (key : Bytes) (position : ℤ) → List Member
  position_member key position = only (ltb_ℤ (pos 0) position) (raw key (print_int position))

  error_members : ErrorData → List Member
  unfolding position_member
  error_members edata =
      text (codes "error_severity") (jsonlog_error_severity server.levels edata.elevel)
      ++ only (not (edata.sqlerrcode == 0))
          (text (codes "state_code") (server.unpack_sql_state edata.sqlerrcode))
      ++ detail_members edata.detail_log edata.detail
      ++ present edata.hint (λ t. text (codes "hint") t)
      ++ present edata.internalquery (λ query.
        text (codes "internal_query") query
        ++ position_member (codes "internal_pos") edata.internalpos)
      ++ present edata.context (λ t. text (codes "context") t)

  Renders-error : (edata : ErrorData) → Renders (error_fields server edata) (error_members edata)
  unfolding error_fields error_members
  Renders-error edata = search (rendering, Renders-detail) depth 10

  position_members : (cursorpos internalpos : ℤ) → List Member
  unfolding position_member
  position_members cursorpos internalpos =
      if ltb_ℤ (pos 0) cursorpos
      then raw (codes "cursor_position") (print_int cursorpos)
      else position_member (codes "internal_position") internalpos

  Renders-position :
      (cursorpos internalpos : ℤ)
      → Renders
          (position_fields server cursorpos internalpos)
          (position_members cursorpos internalpos)
  unfolding position_fields position_members
  Renders-position cursorpos internalpos = elim (Bool-cases (ltb_ℤ (pos 0) cursorpos)) [
    | inl e ↦ rw e (search rendering)
    | inr e ↦ rw e (search rendering)
  ]

  statement_members : ErrorData → List Member
  statement_members edata = present server.debug_query_string (λ query.
      only
        (is_log_level_output server.levels edata.elevel server.log_min_error_statement
          && not edata.hide_stmt)
        (text (codes "statement") query ++ position_members edata.cursorpos edata.internalpos))

  Renders-statement :
      (edata : ErrorData) → Renders (statement_fields server edata) (statement_members edata)
  unfolding statement_fields statement_members
  Renders-statement edata = search (rendering, Renders-position)

  location_members : ErrorData → List Member
  location_members edata = only (leb server.pgerror_verbose server.log_error_verbosity) (
      text (codes "file_location")
        (location_text server edata.funcname edata.filename edata.lineno))

  Renders-location :
      (edata : ErrorData) → Renders (location_fields server edata) (location_members edata)
  unfolding location_fields location_members
  Renders-location edata = search rendering

  process_members : List Member
  process_members =
      present server.application_name
        (λ name. only (is_set name) (text (codes "application_name") name))
      ++ text (codes "backend_type") (backend_type_text server)
      ++ present server.my_proc (λ proc. present proc.leader_pid (λ pid.
        only (not (pid == server.my_proc_pid)) (raw (codes "leader_pid") (print_unsigned pid))))
      ++ raw (codes "query_id") (print_int server.query_id)

  Renders-process : Renders (process_fields server) process_members
  unfolding process_fields process_members
  Renders-process = search rendering depth 10

  leading_members : (log_time start_time : Bytes) → ErrorData → List Member
  leading_members log_time start_time edata =
      service_members log_time
      ++ connection_members
      ++ session_members start_time
      ++ transaction_members
      ++ error_members edata
      ++ statement_members edata
      ++ location_members edata
      ++ process_members

  Renders-leading :
      (log_time start_time : Bytes) (edata : ErrorData)
      → Renders
          (leading_fields server log_time start_time edata)
          (leading_members log_time start_time edata)
  unfolding leading_fields leading_members
  Renders-leading log_time start_time edata =
      search
        (
          Renders-append, Renders-service, Renders-connection, Renders-session, Renders-transaction,
          Renders-error, Renders-statement, Renders-location, Renders-process,
        )
        depth 10

  -- The members of a message's object, in order, with the message at the end.
  pub log_object : (log_time start_time : Bytes) → ErrorData → List Member
  log_object log_time start_time edata =
      leading_members log_time start_time edata ++ text (codes "message") edata.message

  json_buffer-object_line :
      (log_time start_time : Bytes) (edata : ErrorData)
      → json_buffer server log_time start_time edata
        ≡ object_line (log_object log_time start_time edata)
  unfolding log_object json_buffer text_member append_json_literal append_when
  json_buffer-object_line log_time start_time edata = rw (
    object_line-with_commas (leading_members log_time start_time edata) _,
    rendered (Renders-leading log_time start_time edata),
    append-nil,
  )

-- The line of a message: its members, rendered in order, joined by commas and in braces.
abbrev pub message_line :
    Server → (tv_sec tv_usec : ℕ) (formatted_start_time : Bytes) → ErrorData → Bytes
message_line server tv_sec tv_usec formatted_start_time edata = object_line (
    log_object server (setup_formatted_log_time server tv_sec tv_usec)
      (setup_formatted_start_time server formatted_start_time) edata)

-- A message is written where the place of its level is not below that of log_min_messages, with LOG
-- placed between ERROR and FATAL. Its line then reaches each destination: the pipe of the log
-- collector, in chunks that it puts together again, or standard error, and the file in the process of
-- the collector; and the hook that was there before is called. Of any other message nothing is
-- written, and that hook is not called. In both cases the server's own output of the message is turned
-- off. The line has the members in braces, joined by commas, the message being the last; a key stands
-- in it as it is, and a text as escape_json, which is outside the model, gives it. A chunk may hold a
-- byte at least, the fuel is above the length of the line, FATAL is above ERROR, and the level of the
-- message is not between them.
pub write_json_object :
    (fuel max : ℕ) (server : Server) (dest : Destination) (tv_sec tv_usec : ℕ)
    (formatted_start_time : Bytes) (has_prev_hook : Bool) (edata : ErrorData)
    → 1 ≤ max
    → length (message_line server tv_sec tv_usec formatted_start_time edata) ≤ fuel
    → server.levels.error < server.levels.fatal
    → (edata.elevel ≤ server.levels.error) ⊎ (server.levels.fatal ≤ edata.elevel)
    → let logged =
        jsonlog_write_json
          (suc fuel)
          max
          server
          dest
          tv_sec
          tv_usec
          formatted_start_time
          has_prev_hook
          edata in
      let line = message_line server tv_sec tv_usec formatted_start_time edata in
      let enabled =
        leb (min_rank server.levels server.log_min_messages) (rank server.levels edata.elevel) in
      (writes : List Write) × (logged.writes ≡ some writes)
      × (if enabled
          then Outgoing dest.to_stderr dest.redirection_done dest.is_logger max server.my_proc_pid
              line writes
          else writes ≡ [])
      × (logged.chained ≡ (enabled && has_prev_hook))
      × (logged.output_to_server ≡ false)
unfolding jsonlog_write_json
write_json_object fuel max server dest tv_sec tv_usec formatted_start_time has_prev_hook edata
      positive enough order outside =
    let (ws, sent, reaches) =
      output_message-Outgoing fuel max server.my_proc_pid
        (message_line server tv_sec tv_usec formatted_start_time edata) positive enough
        dest.to_stderr dest.redirection_done dest.is_logger in
    let same =
      is_log_level_output_lem server.levels edata.elevel server.log_min_messages order outside in
    elim (Bool-cases
      (leb (min_rank server.levels server.log_min_messages) (rank server.levels edata.elevel))) [
        | inl e ↦ (
          ws,
          rw (same ∙ e, json_buffer-object_line server _ _ edata) sent,
          rw e reaches,
          rw (same ∙ e, e) refl,
          rw (same ∙ e) refl,
        )
        | inr e ↦ ([], rw (same ∙ e) refl, rw e refl, rw (same ∙ e, e) refl, rw (same ∙ e) refl)
      ]
