-- ===== src/State.antt =====
-- internal/orchestrator/state: what the orchestrator remembers of runs, steps and approvals.
pub mod Records
pub mod Status
pub mod Json
pub mod MemStore
pub mod Envelope
pub mod Listing
mod Examples
