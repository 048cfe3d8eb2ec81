-- ===== src/Domain/Market.antt =====
-- internal/domain/market.go: the candle. `decimal.Decimal` is a third-party type, so it is the
-- parameter `D`; a pointer to an optional value is an `Option`, and copying it copies the value.
use market_data.Prelude.{ℕ, Option, List}
use market_data.Domain.Names.{Exchange, Market, Timeframe}
use market_data.Domain.Time.{Time}

-- A Go string, as its bytes.
abbrev pub Text : Type 0
Text = List ℕ

pub record Kline (D : Type 0) : Type 0 where
  pub exchange : Exchange
  pub market : Market
  pub symbol : Text
  pub interval : Timeframe
  pub open_time : Time
  pub close_time : Time
  pub open_price : D
  pub high : D
  pub low : D
  pub close_price : D
  pub volume : D
  pub turnover : D
  pub trades_count : Option ℕ
  pub fetched_at : Time
