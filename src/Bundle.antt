-- ===== src/Bundle.antt =====
-- lib/bundle.mjs: the run bundle's state and the transforms that the shell applies to it.
pub mod Ids
pub mod State
pub mod Seed
pub mod Setters
pub mod Rebasing
pub mod Capability
pub mod Tasks
pub mod Plan
pub mod Reasons
pub mod Keys
pub mod Upsert
pub mod Amended
pub mod History
