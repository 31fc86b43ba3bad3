-- ===== src/Interview.antt =====
-- The interview that settles a run's intent (lib/interview.mjs) and the gate that loads its outcome
-- (lib/goals.mjs).
pub mod Events
pub mod Ledger
pub mod Tables
pub mod Replay
pub mod Standing
pub mod Log
pub mod Verbs
pub mod Critic
pub mod Coverage
pub mod Judging
pub mod Ending
pub mod Gate
pub mod Outcome
pub mod Unavailable
pub mod Closing
pub mod Converging
pub mod Appending
pub mod Written
pub mod Checked
pub mod Recorded
pub mod Counters
pub mod Orderly
pub mod Keeping
pub mod Accepted
pub mod Closures
pub mod Reached
pub mod Assumed
