-- ===== src/Owner.antt =====
-- lib/owner.mjs and lib/owner-fs.mjs: which session owns a bundle.
pub mod Ownership
pub mod Files
pub mod Acquiring
pub mod Holding
pub mod Interleaved
pub mod Releasing
