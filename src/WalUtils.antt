-- ===== src/WalUtils.antt =====
-- wal_utils/wal_utils.c: timeline history files, lists of WAL segments, and files of the archive.
pub mod History
pub mod Parsed
pub mod Segments
pub mod Archive
pub mod Steps
pub mod Cover
pub mod Listed
pub mod Files
pub mod Tests
