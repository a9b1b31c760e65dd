-- ===== src/JsonLog/Output.antt =====
-- jsonlog/jsonlog.c: where the line of a message goes, on every destination.
use pg_plugins.Base.{
  ℕ, suc, ◌≤◌, ◌≡◌, refl, Bool, true, false, some, List, [], ◌∷◌, Bytes, length, All, append-nil,
}
use pg_plugins.JsonLog.Chunks.{Chunk, Write, pipe_chunks, console, syslogger_file, output_message}
use pg_plugins.JsonLog.Sent.{collect, Fits, pipe_chunks_roundtrip}

-- The writes of a line. Standard error has it in chunks that the log collector puts together again
-- where the collector runs and the process is another, and as it is otherwise; the process of the
-- collector writes it into its file too.
abbrev pub Outgoing :
    (to_stderr redirection_done is_logger : Bool) (max pid : ℕ) → Bytes → List Write → Type 0
Outgoing true true false max pid line writes =
    (cs : List Chunk) × (writes ≡ pipe_chunks cs ∷ [])
    × (collect cs ≡ some (line, []))
    × All (Fits max pid) cs
Outgoing true true true max pid line writes = writes ≡ console line ∷ syslogger_file line ∷ []
Outgoing true false true max pid line writes = writes ≡ console line ∷ syslogger_file line ∷ []
Outgoing true false false max pid line writes = writes ≡ console line ∷ []
Outgoing false redirection_done true max pid line writes = writes ≡ syslogger_file line ∷ []
Outgoing false redirection_done false max pid line writes = writes ≡ []

module _ (fuel max pid : ℕ) (line : Bytes) (positive : 1 ≤ max) (enough : length line ≤ fuel) where
  pub output_message-Outgoing :
      (a b c : Bool)
      → (ws : List Write) × (output_message
            (suc fuel)
            max
            pid
            (record { to_stderr = a; redirection_done = b; is_logger = c })
            line
          ≡ some ws)
        × Outgoing a b c max pid line ws
  unfolding output_message
  output_message-Outgoing true true false =
      let (cs, sent, whole, fit) = pipe_chunks_roundtrip fuel max pid line [] positive enough in
      (pipe_chunks cs ∷ [], rw sent refl, (cs, refl, rw⁻¹ (append-nil cs) whole, fit))
  output_message-Outgoing true true true = (_, refl, refl)
  output_message-Outgoing true false true = (_, refl, refl)
  output_message-Outgoing true false false = (_, refl, refl)
  output_message-Outgoing false true true = (_, refl, refl)
  output_message-Outgoing false false true = (_, refl, refl)
  output_message-Outgoing false true false = (_, refl, refl)
  output_message-Outgoing false false false = (_, refl, refl)
