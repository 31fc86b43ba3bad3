-- ===== src/Promotion.antt =====
-- The promotion of an amendment (lib/promote.mjs): its diff and the application of it in memory.
pub mod Diff
