-- ===== src/Refs.antt =====
-- lib/refs.mjs: references between the bundles of two runs.
pub mod Entries
pub mod Slugs
pub mod Linking
pub mod Removing
