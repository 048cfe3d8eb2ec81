-- ===== src/Storage.antt =====
-- internal/infrastructure/storage/memory: the repositories.
pub mod Klines
pub mod Snapshots
