-- ===== src/Tests.antt =====
-- Runs on small inputs, and each theorem at an input that meets its hypotheses.
mod Addcnt
mod Commit
mod Example
mod Idle
mod Log
mod Pipeline
mod Queue
mod Racey
mod Record
mod Recorded
mod Relay
mod Replay
