-- ===== src/Web.antt =====
-- src/kitt/web: the server that agents register with.
pub mod Database
pub mod Agents
pub mod Events
pub mod QuickTests
pub mod Campaigns
pub mod Execution
