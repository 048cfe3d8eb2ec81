-- ===== src/Domain/Snapshot.antt =====
-- internal/domain/market.go: instruments, tickers and statistics. A decimal is of the parameter
-- `D`.
use market_data.Prelude.{ℕ, Option}
use market_data.Domain.Names.{Exchange, Market}
use market_data.Domain.Market.{Text}
use market_data.Domain.Time.{Time}

-- The empty contract type is unknown; `other` strings are told apart by a number.
pub data InstrumentStatus : Type 0 where
  unknown pre_launch trading halted cancel_only settling closed : InstrumentStatus
  other : ℕ → InstrumentStatus

pub data ContractType : Type 0 where
  unknown perpetual expiry : ContractType
  other : ℕ → ContractType

pub record Instrument (D : Type 0) : Type 0 where
  pub contract_type : ContractType
  pub exchange : Exchange
  pub market : Market
  pub symbol : Text
  pub base_asset : Text
  pub quote_asset : Text
  pub status : InstrumentStatus
  pub price_tick : D
  pub qty_step : D
  pub min_qty : Option D
  pub max_qty : Option D
  pub min_notional : Option D
  pub funding_interval : Option ℕ
  pub delisting_time : Option Time
  pub updated_at : Time

pub record Ticker (D : Type 0) : Type 0 where
  pub exchange : Exchange
  pub market : Market
  pub symbol : Text
  pub last_price : D
  pub bid_price : Option D
  pub bid_size : Option D
  pub ask_price : Option D
  pub ask_size : Option D
  pub funding_rate : Option D
  pub next_funding_at : Option Time
  pub fetched_at : Time

pub record MarketStats (D : Type 0) : Type 0 where
  pub exchange : Exchange
  pub market : Market
  pub symbol : Text
  pub window : ℕ
  pub high : D
  pub low : D
  pub volume : D
  pub turnover : D
  pub price_change : Option D
  pub trade_count : Option ℕ
  pub fetched_at : Time
