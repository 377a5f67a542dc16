-- ===== src/Storage.antt =====
-- src/kitt/storage: results kept as JSON files (json_store.py).
pub mod Json
pub mod Files
pub mod JsonStore
