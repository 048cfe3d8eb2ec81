-- ===== src/Config.antt =====
-- internal/config/config.go: the settings of the process. An int or a duration is a number, since
-- `validatePositiveValues` and the test of the safety margin refuse every negative one before
-- another check reads it; a duration is its nanoseconds.
pub mod Defaults
pub mod Validate
pub mod Local
pub mod Budgets
pub mod Observed
pub mod Tests
pub mod Shares
pub mod Capacity
use market_data.Prelude.{ℕ, Bool, List, ◌*◌}
use market_data.Prelude.Map.{Map}
use market_data.Domain.Market.{Text}
use market_data.Domain.Time.{second}

abbrev pub millisecond : ℕ
millisecond = 1_000_000

abbrev pub minute : ℕ
minute = 60 * second

abbrev pub hour : ℕ
hour = 60 * minute

abbrev pub default_history_candles : ℕ
default_history_candles = 1000

abbrev pub default_kline_timeout : ℕ
default_kline_timeout = 30 * second

abbrev pub bybit_kline_maximum : ℕ
bybit_kline_maximum = 1000

abbrev pub binance_spot_kline_maximum : ℕ
binance_spot_kline_maximum = 1000

abbrev pub binance_linear_kline_maximum : ℕ
binance_linear_kline_maximum = 1500

abbrev pub write_grace : ℕ
write_grace = 5 * second

pub record GrpcServer : Type 0 where
  pub host : Text
  pub port : ℕ
  pub max_request_bytes : ℕ
  pub max_response_bytes : ℕ
  pub max_header_bytes : ℕ

pub record HttpServer : Type 0 where
  pub host : Text
  pub port : ℕ
  pub read_header_timeout : ℕ
  pub idle_timeout : ℕ
  pub write_timeout : ℕ
  pub max_header_bytes : ℕ
  pub max_query_bytes : ℕ

pub record Server : Type 0 where
  pub grpc : GrpcServer
  pub http : HttpServer
  pub shutdown_timeout : ℕ
  pub max_snapshot_requests : ℕ
  pub snapshot_timeout : ℕ

pub record Storage : Type 0 where
  pub driver : Text
  pub cleanup_interval : ℕ

pub record Klines : Type 0 where
  pub request_timeout : ℕ
  pub max_history_candles : ℕ
  pub max_callers : ℕ
  pub max_active_fills : ℕ
  pub max_active_fills_per_exchange : ℕ
  pub fill_timeout : ℕ

pub record MarketStats : Type 0 where
  pub windows : List Text

pub record Operations (T : Type 0) : Type 0 where
  pub tickers : T
  pub klines : T
  pub instruments : T
  pub market_stats : T

pub record BinanceUpstream : Type 0 where
  pub stop_threshold_percent : ℕ
  pub catalog_refresh_interval : ℕ

pub record Lane : Type 0 where
  pub http_slots : ℕ
  pub waiters : ℕ
  pub max_attempts : ℕ

pub record CycleLane : Type 0 where
  pub http_slots : ℕ
  pub waiters : ℕ
  pub cycle_timeout : ℕ
  pub max_attempts : ℕ

pub record Lanes : Type 0 where
  pub tickers : CycleLane
  pub instruments : CycleLane
  pub klines : Lane
  pub market_stats : CycleLane

pub record Window : Type 0 where
  pub explicit_limit : Bool
  pub measure : Text
  pub window : ℕ
  pub limit : ℕ
  pub split_operations : Bool

pub record Scope : Type 0 where
  pub min_request_spacing : ℕ
  pub windows : Map Text Window

pub record Limits : Type 0 where
  pub binance_spot : Scope
  pub binance_linear : Scope
  pub bybit : Scope

pub record Cooldown : Type 0 where
  pub binance_429 : ℕ
  pub binance_418 : ℕ
  pub bybit_429 : ℕ
  pub bybit_10006 : ℕ
  pub bybit_403_access_too_frequent : ℕ

pub record Upstream : Type 0 where
  pub binance : BinanceUpstream
  pub safety_margin_percent : ℕ
  pub operation_share_percent : Operations ℕ
  pub max_http_inflight : ℕ
  pub max_admission_waiters : ℕ
  pub admission_timeout : ℕ
  pub lanes_per_exchange : Lanes
  pub limits : Limits
  pub cooldown : Cooldown

pub record Refresh : Type 0 where
  pub refresh_interval : ℕ

pub record Markets (T : Type 0) : Type 0 where
  pub spot : T
  pub linear : T

pub record PageLimits : Type 0 where
  pub max_candles_per_request : Markets ℕ

pub record Bybit : Type 0 where
  pub enabled : Bool
  pub markets : List Text
  pub instruments : Refresh
  pub klines : PageLimits

pub record Binance : Type 0 where
  pub enabled : Bool
  pub markets : List Text
  pub instruments : Refresh
  pub klines : PageLimits
  pub market_stats : Refresh

pub record Exchanges : Type 0 where
  pub bybit : Bybit
  pub binance : Binance

pub record Retry : Type 0 where
  pub max_attempts : ℕ
  pub initial_backoff : ℕ
  pub max_backoff : ℕ

pub record HttpClient : Type 0 where
  pub timeout : ℕ
  pub max_response_bytes : ℕ
  pub retry : Retry

-- A float64: a finite one is its sign (true below zero), and a number over a power of two.
pub data Float64 : Type 0 where
  not_a_number infinite : Float64
  finite : Bool → ℕ → ℕ → Float64

pub record Sentry : Type 0 where
  pub enabled : Bool
  pub dsn : Text
  pub environment : Text
  pub traces_sample_rate : Float64

pub record Prometheus : Type 0 where
  pub enabled : Bool
  pub path : Text

pub record Stats : Type 0 where
  pub enabled : Bool
  pub endpoint_enabled : Bool

pub record Observability : Type 0 where
  pub sentry : Sentry
  pub prometheus : Prometheus
  pub stats : Stats

pub record Config : Type 0 where
  pub server : Server
  pub storage : Storage
  pub klines : Klines
  pub market_stats : MarketStats
  pub upstream : Upstream
  pub exchanges : Exchanges
  pub http_client : HttpClient
  pub observability : Observability
