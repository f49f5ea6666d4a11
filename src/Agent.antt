-- ===== src/Agent.antt =====
-- internal/runtime/agent: the records of types.go, and the reasoning loop of loop.go.
pub mod Records
pub mod Text
pub mod Policy
pub mod Loop
pub mod Drafts
mod Examples
