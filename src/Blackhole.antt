-- ===== src/Blackhole.antt =====
-- blackhole/blackhole.c: two SQL functions that return the same set of rows in two ways.
pub mod Functions
mod Agreement
mod Tests
