-- ===== src/Replication.antt =====
-- decoder_raw/decoder_raw.c and receiver_raw/receiver_raw.c together: one transaction, from the callbacks
-- of the output plugin to the statements that the worker executes.
pub mod Stream
pub mod Transaction
mod Replayed
mod Rounds
mod Replicated
mod Tests
