-- ===== src/Handoff.antt =====
-- lib/fabric-idempotency.mjs: when a dispatched item's earlier result is used again.
pub mod Keys
pub mod Encoding
pub mod Reuse
