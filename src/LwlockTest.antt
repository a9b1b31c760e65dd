-- ===== src/LwlockTest.antt =====
-- lwlock_test/lwlock_test.c: two backends that exchange updates through the variables of two locks.
pub mod Locks
pub mod Backends
mod System
mod Moves
mod Invariant
mod Preserved
mod Handshake
mod Tests
