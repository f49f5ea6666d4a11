-- ===== src/Config.antt =====
-- internal/config: the parameters of agents and tool servers.
pub mod Params
pub mod Values
pub mod Agents
pub mod Policies
