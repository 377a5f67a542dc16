-- ===== src/Web/Agents.antt =====
-- AgentManager of src/kitt/web/services/agent_manager.py: tokens, registration, settings, commands
-- and heartbeats of the agents.
pub mod Tokens
pub mod Registration
pub mod Commands
pub mod Heartbeat
pub mod Stale
