-- ===== src/Server.antt =====
-- internal/orchestrator/server.go: the callbacks of the runtime and the approvals of tool calls.
pub mod World
pub mod Redispatch
pub mod Complete
pub mod Decide
mod Examples
