-- ===== src/WalBlocks.antt =====
-- pg_wal_blocks/pg_wal_blocks.c: the program that lists the blocks that the records of a WAL segment
-- touch.
pub mod Path
pub mod Parsing
pub mod Command
mod Split
mod Listing
mod Tests
