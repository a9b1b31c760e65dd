-- ===== src/Pgmpc.antt =====
-- pgmpc/pgmpc.c: SQL functions that drive a server of the Music Player Daemon over libmpdclient.
pub mod Client
pub mod Functions
pub mod Requests
pub mod Ownership
pub mod Released
pub mod Tests
