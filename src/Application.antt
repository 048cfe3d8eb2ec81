-- ===== src/Application.antt =====
-- internal/application: the types that the use cases share, and the planning of candle pages.
pub mod Context
pub mod Series
pub mod Snapshot
pub mod Planner
pub mod Refreshes
pub mod Fills
pub mod Service
pub mod Retention
pub mod Snapshots
