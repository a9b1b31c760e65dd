-- ===== src/JsonLog/Sent.antt =====
-- jsonlog/jsonlog.c: the chunks of a message, from the side of the log collector.
use pg_plugins.Base.{
  ℕ, zero, suc, ◌≤◌, ◌<◌, ◌≡◌, refl, ap, ◌∙◌, true, false, Option, none, some, List, [], ◌∷◌, ◌++◌,
  arith, Bytes, take, drop, length, take-append-drop, length-take, length-drop, All, if◌then◌else◌,
}
use native.Mathlib.Decide.{dec_lt}
use pg_plugins.JsonLog.Chunks.{Chunk, cons_chunk, jsonlog_write_pipe_chunks}

-- What the log collector puts together from the chunks of one process: the data up to the end of
-- a chunk that is the last of its message, and the chunks behind it.
abbrev add_front : Bytes → Option (Bytes × List Chunk) → Option (Bytes × List Chunk)
add_front d none = none
add_front d (some (text, rest)) = some (d ++ text, rest)

abbrev pub collect : List Chunk → Option (Bytes × List Chunk)
collect [] = none
collect (c ∷ cs) = if c.is_last then some (c.data_, cs) else add_front c.data_ (collect cs)

-- The sender is named, and the data fits.
abbrev pub Fits : ℕ → ℕ → Chunk → Type 0
Fits max pid c = (c.pid ≡ pid) × (length c.data_ ≤ max)

abbrev Sends : ℕ → ℕ → ℕ → Bytes → List Chunk → Type 0
Sends fuel max pid data_ following =
    (cs : List Chunk) × (jsonlog_write_pipe_chunks fuel max pid data_ ≡ some cs)
    × (collect (cs ++ following) ≡ some (data_, following))
    × All (Fits max pid) cs

write-last :
    (fuel max pid : ℕ) (data_ : Bytes)
    → length data_ ≤ max
    → jsonlog_write_pipe_chunks (suc fuel) max pid data_
      ≡ some (record { pid = pid; is_last = true; data_ = data_ } ∷ [])
unfolding jsonlog_write_pipe_chunks
write-last fuel max pid data_ h = ground arith

write-more :
    (fuel max pid : ℕ) (data_ : Bytes)
    → max < length data_
    → jsonlog_write_pipe_chunks (suc fuel) max pid data_
      ≡ cons_chunk
          (record { pid = pid; is_last = false; data_ = take max data_ })
          (jsonlog_write_pipe_chunks fuel max pid (drop max data_))
unfolding jsonlog_write_pipe_chunks
write-more fuel max pid data_ h = ground arith

-- A message is sent in chunks that the collector puts together again, whatever follows them; each
-- names the sender and has at most the allowed length. A chunk may hold a byte at least, and the
-- fuel is above the length of the message.
pub pipe_chunks_roundtrip :
    (fuel max pid : ℕ) (data_ : Bytes) (following : List Chunk)
    → 1 ≤ max
    → length data_ ≤ fuel
    → (cs : List Chunk) × (jsonlog_write_pipe_chunks (suc fuel) max pid data_ ≡ some cs)
      × (collect (cs ++ following) ≡ some (data_, following))
      × All (Fits max pid) cs
pipe_chunks_roundtrip zero max pid data_ following h enough =
    (_, write-last 0 max pid data_ (omega arith), refl, ((refl, omega arith), tt))
pipe_chunks_roundtrip (suc fuel) max pid data_ following h enough =
    elim (dec_lt max (length data_)) [
      | no small ↦
          (_, write-last (suc fuel) max pid data_ (omega arith), refl, ((refl, omega arith), tt))
      | yes large ↦
          let (cs, sent, whole, fit) =
            pipe_chunks_roundtrip fuel max pid (drop max data_) following h
              (omega (arith, length-drop max data_)) in
          (
            record { pid = pid; is_last = false; data_ = take max data_ } ∷ cs,
            write-more (suc fuel) max pid data_ large ∙ ap (cons_chunk _) sent,
            rw whole (ap (λ (d : Bytes). some (d, following)) (take-append-drop max data_)),
            ((refl, omega (arith, length-take max data_)), fit),
          )
    ]
