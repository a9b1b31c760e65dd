-- ===== src/ReceiverRaw.antt =====
-- receiver_raw/receiver_raw.c: a background worker that receives logical changes over a replication
-- connection and applies them.
pub mod Wire
pub mod Message
pub mod Loop
pub mod Feedback
pub mod Branches
pub mod Progress
pub mod Rounds
pub mod Exit
pub mod Time
pub mod Startup
pub mod Tests
