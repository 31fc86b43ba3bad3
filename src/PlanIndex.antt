-- ===== src/PlanIndex.antt =====
-- lib/plan-merge.mjs: the index of a plan's tasks.
pub mod Validation
mod Soundness
pub mod Accepted
pub mod Nodes
pub mod Merged
pub mod Order
mod Counting
mod Ordered
mod Kahn
pub mod Complete
pub mod Acyclic
pub mod Topological
pub mod Layers
pub mod Layered
pub mod Merge
mod Placing
pub mod Validated
