-- ===== src/Amend.antt =====
-- The amendments section of a plan (lib/amend.mjs): what `amendPlan` writes to the text of plan.md.
pub mod Writer
pub mod Placed
