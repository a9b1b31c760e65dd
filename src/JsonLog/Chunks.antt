-- ===== src/JsonLog/Chunks.antt =====
-- jsonlog/jsonlog.c: jsonlog_write_pipe_chunks, and the output of a message that is complete.
use pg_plugins.Base.{
  ℕ, zero, suc, Bool, true, false, not, ◌&&◌, Option, none, some, List, [], ◌∷◌, ◌++◌, Bytes, ltb,
  if◌then◌else◌, take, drop, length,
}

-- A PipeProtoChunk; its length is that of the data.
pub record Chunk : Type 0 where
  pub pid : ℕ
  pub is_last : Bool
  pub data_ : Bytes

abbrev pub cons_chunk : Chunk → Option (List Chunk) → Option (List Chunk)
cons_chunk c none = none
cons_chunk c (some cs) = some (c ∷ cs)

-- The chunks that are written, on fuel for the loop: none is out of fuel. `max` is
-- PIPE_MAX_PAYLOAD.
unfoldable pub jsonlog_write_pipe_chunks : ℕ → ℕ → ℕ → Bytes → Option (List Chunk)
jsonlog_write_pipe_chunks zero max pid data_ = none
jsonlog_write_pipe_chunks (suc fuel) max pid data_ =
    let rest = jsonlog_write_pipe_chunks fuel max pid (drop max data_) in
    if ltb max (length data_)
    then cons_chunk (record { pid = pid; is_last = false; data_ = take max data_ }) rest
    else some (record { pid = pid; is_last = true; data_ = data_ } ∷ [])

-- What a message is sent to: the pipe of the log collector, standard error, or the log file.
pub data Write : Type 0 where
  pipe_chunks : List Chunk → Write
  console syslogger_file : Bytes → Write

-- Log_destination has LOG_DESTINATION_STDERR; redirection_done; MyBackendType is B_LOGGER.
pub record Destination : Type 0 where
  pub to_stderr : Bool
  pub redirection_done : Bool
  pub is_logger : Bool

abbrev to_pipe : Option (List Chunk) → Option (List Write)
to_pipe none = none
to_pipe (some cs) = some (pipe_chunks cs ∷ [])

abbrev then_file : Bool → Bytes → Option (List Write) → Option (List Write)
then_file is_logger buf none = none
then_file is_logger buf (some ws) = some (ws ++ (if is_logger then syslogger_file buf ∷ [] else []))

-- The end of jsonlog_write_json, from the test of the destination on.
unfoldable pub output_message : ℕ → ℕ → ℕ → Destination → Bytes → Option (List Write)
output_message fuel max pid dest buf =
    let chunks = jsonlog_write_pipe_chunks fuel max pid buf in
    let sent : Option (List Write) =
      if dest.to_stderr
      then (if dest.redirection_done && not dest.is_logger
          then to_pipe chunks
          else some (console buf ∷ []))
      else some [] in
    then_file dest.is_logger buf sent
