-- ===== src/Application/Series.antt =====
-- internal/application/contracts.go and internal/application/kline/contracts.go: scopes, series,
-- queries and stored candles.
use market_data.Prelude.{ℕ}
use market_data.Domain.Names.{
  Exchange, Market, Timeframe, Exchange-discrete, Market-discrete, Timeframe-discrete,
}
unfoldable pub use market_data.Prelude.Text.{Text-discrete}
use market_data.Domain.Time.{Time}
use market_data.Domain.Market.{Text, Kline}

pub record Scope : Type 0 where
  pub exchange : Exchange
  pub market : Market

pub record Series : Type 0 where
  pub scope : Scope
  pub open scope use *
  pub symbol : Text
  pub interval : Timeframe

pub record Query : Type 0 where
  pub series : Series
  pub open series use *
  pub from : Time
  pub to : Time

pub record Request : Type 0 where
  pub query : Query
  pub limit : ℕ

pub record Stored (D : Type 0) : Type 0 where
  pub candle : Kline D
  pub request_started_at : Time

unfoldable pub Scope-discrete : Discrete Scope
unfolding Exchange-discrete Market-discrete
Scope-discrete = hlevel (Exchange-discrete, Market-discrete)

unfoldable pub Series-discrete : Discrete Series
unfolding Scope-discrete Text-discrete Timeframe-discrete
Series-discrete = hlevel (Scope-discrete, Text-discrete, Timeframe-discrete)
