-- ===== src/Replay.antt =====
-- mem-replay.c: the replayer. Threads run in any order, one access of shared state at a time; a
-- busy wait is a step that changes nothing.
pub mod Defs
pub mod Logs
pub mod Waits
pub mod Invariant
pub mod Values
pub mod Step
pub mod Start
pub mod Faithful
pub mod Done
pub mod Moves
pub mod Completes
