-- ===== src/Overflow.antt =====
-- overflow/: checks of integer arithmetic for overflow, one by one and in the loop of a benchmark.
pub mod Check
pub mod Functions
pub mod Exact
pub mod Agreement
pub mod Tests
