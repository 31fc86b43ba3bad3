-- ===== src/Github.antt =====
-- The coordination of a run over GitHub (lib/github-coord.mjs): issues for tasks, claims on them, and
-- what the lead writes back when they are merged.
pub mod Issues
pub mod Integration
pub mod Verbs
pub mod Claims
mod Marked
pub mod WriteBack
pub mod Written
pub mod Settled
pub mod Body
pub mod Bootstrap
pub mod Advance
