-- ===== src/Wave.antt =====
-- lib/wave.mjs: what one wave dispatches, and the check of what its agents touched.
pub mod Prepare
pub mod Scope
pub mod Disjoint
pub mod Files
pub mod Prepared
