-- ===== src/Runner.antt =====
-- internal/orchestrator/runner: the steps of a workflow, one after the other.
pub mod Expr
pub mod Template
pub mod Transform
pub mod Steps
pub mod Execute
pub mod Root
pub mod Nested
pub mod Sub
pub mod Runs
pub mod Order
pub mod Outputs
pub mod Depth
mod Examples
