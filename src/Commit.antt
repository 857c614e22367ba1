-- ===== src/Commit.antt =====
-- The order of commits: merge-commit.cpp puts the commits of all threads, whose times
-- mem-record-rtmcommit.c logs by thread, in one order, and mem-replay-rtmcommit.c follows it.
pub mod Merge
pub mod Queue
pub mod Times
pub mod Order
pub mod Replay
