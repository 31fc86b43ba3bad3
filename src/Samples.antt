-- ===== src/Samples.antt =====
-- Concrete runs on which the theorems apply.
pub mod Data
mod Runs
mod Plans
mod Amendments
mod Bundles
mod Drafts
mod Sessions
mod Links
mod Diffs
pub mod Ledgers
mod Interviews
mod Issues
