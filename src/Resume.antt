-- ===== src/Resume.antt =====
-- lib/resume.mjs: the pure decision of what a run does next, from its state and one liveness probe.
pub mod Decide
pub mod Cases
pub mod Dispatch
pub mod Driven
pub mod Completion
pub mod InFlight
pub mod Recovered
mod Beginning
pub mod Legacy
pub mod Running
pub mod Reconciled
