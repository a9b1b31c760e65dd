-- ===== src/Workers.antt =====
-- kill_idle/, hello_notify/, count_relations/, hello_signal/ and hello_world/: the background workers
-- that sleep on their latch, and act once in each round of a loop.
pub mod Loop
pub mod KillIdle
pub mod HelloNotify
pub mod Simple
pub mod Traces
pub mod Queries
pub mod PiledQueries
pub mod Sigterm
pub mod Tests
