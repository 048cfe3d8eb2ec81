-- ===== src/Domain.antt =====
-- internal/domain: the market records, time and the candle calendar.
pub mod Names
pub mod Time
pub mod Timeframe
pub mod Grid
pub mod Market
pub mod Snapshot
