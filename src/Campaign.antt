-- ===== src/Campaign.antt =====
-- The campaign engine, src/kitt/campaign: its configuration and result types, the state that is
-- kept on disk, the scheduler, and the runner that drives them.
pub mod Config
pub mod State
pub mod Saved
pub mod Session
pub mod Manager
pub mod Scheduler
pub mod Sizes
pub mod Expand
pub mod Transfer
pub mod Execute
pub mod Runner
