-- ===== src/Engines.antt =====
-- src/kitt/engines: which Docker image an engine runs in, and the restart of an engine that fails.
pub mod Recovery
pub mod Images
