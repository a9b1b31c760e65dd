-- ===== src/SignalRmgr.antt =====
-- signal_rmgr/signal_rmgr.c: the resource manager whose WAL records send a signal to the postmaster.
pub mod Rmgr
mod Replay
mod Tests
