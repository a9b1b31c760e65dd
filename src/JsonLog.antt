-- ===== src/JsonLog.antt =====
-- jsonlog/jsonlog.c: the log hook that writes messages as JSON: which messages are written, under which
-- severity, with which fields, and how they are sent to the log collector.
pub mod Levels
pub mod Server
pub mod Chunks
pub mod Json
pub mod Hook
pub mod Members
pub mod Rendering
pub mod Output
pub mod Object
pub mod Rank
pub mod Sent
pub mod Tests
