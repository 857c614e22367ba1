-- ===== src/Replay/Invariant.antt =====
-- mem-replay.c: what holds in every state of a replay that follows the recording.
pub mod Defs
pub mod Threads
pub mod Readers
pub mod Steps
pub mod Search
pub mod Turns
pub mod Access
