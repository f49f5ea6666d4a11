-- ===== src/Output.antt =====
-- What the orchestrator checks on a step's output: the reserved ktsu_* fields
-- (internal/orchestrator/runner/runner.go) and the air-lock
-- (internal/orchestrator/airlock/airlock.go).
pub mod Reserved
pub mod Airlock
pub mod Clean
mod Examples
