-- ===== src/DecoderRaw.antt =====
-- decoder_raw/decoder_raw.c: an output plugin that writes each decoded change as an SQL statement.
pub mod Types
pub mod Print
pub mod Statements
pub mod Callbacks
pub mod Literals
pub mod Columns
pub mod Where
pub mod Dispatch
pub mod Options
pub mod Tests
