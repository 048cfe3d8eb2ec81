-- ===== src/Config/Defaults.antt =====
-- `Defaults` of internal/config/config.go.
use market_data.Prelude.{ℕ, ◌*◌, Bool, true, false, [], ◌∷◌}
use market_data.Prelude.Text.{bytes}
use market_data.Domain.Market.{Text}
use market_data.Domain.Time.{second}
use market_data.Config.{
  Config, Limits, Window, millisecond, minute, hour, default_history_candles, default_kline_timeout,
  bybit_kline_maximum, binance_spot_kline_maximum, binance_linear_kline_maximum, finite,
}

abbrev default_window : Text → ℕ → ℕ → Bool → Window
default_window measure window limit split_operations = record {
  explicit_limit = false;
  measure = measure;
  window = window;
  limit = limit;
  split_operations = split_operations;
}

abbrev pub default_limits : Limits
default_limits = record {
  binance_spot = record {
    min_request_spacing = 20 * millisecond;
    windows =
        (bytes "request_weight_1m", default_window (bytes "weight") minute 6000 true)
        ∷ (bytes "raw_requests_5m", default_window (bytes "requests") (5 * minute) 300000 true)
        ∷ [];
  };
  binance_linear = record {
    min_request_spacing = 20 * millisecond;
    windows =
        (bytes "request_weight_1m", default_window (bytes "weight") minute 2400 true)
        ∷ (bytes "funding_requests_5m", default_window (bytes "requests") (5 * minute) 500 false)
        ∷ [];
  };
  bybit = record {
    min_request_spacing = 10 * millisecond;
    windows =
        (bytes "http_requests_5s", default_window (bytes "requests") (5 * second) 600 true) ∷ [];
  };
}

unfoldable pub defaults : Config
defaults = record {
  server = record {
    grpc = record {
      host = bytes "0.0.0.0";
      port = 9090;
      max_request_bytes = 8192;
      max_response_bytes = 16777216;
      max_header_bytes = 32768;
    };
    http = record {
      host = bytes "0.0.0.0";
      port = 8080;
      read_header_timeout = 5 * second;
      idle_timeout = minute;
      write_timeout = 5 * second;
      max_header_bytes = 32768;
      max_query_bytes = 8192;
    };
    shutdown_timeout = 35 * second;
    max_snapshot_requests = 64;
    snapshot_timeout = 5 * second;
  };
  storage = record { driver = bytes "memory"; cleanup_interval = hour };
  klines = record {
    request_timeout = default_kline_timeout;
    max_history_candles = default_history_candles;
    max_callers = 64;
    max_active_fills = 12;
    max_active_fills_per_exchange = 6;
    fill_timeout = default_kline_timeout;
  };
  market_stats = record { windows = bytes "24h" ∷ [] };
  upstream = record {
    binance = record { stop_threshold_percent = 90; catalog_refresh_interval = hour };
    safety_margin_percent = 20;
    operation_share_percent = record {
      tickers = 60;
      klines = 30;
      instruments = 5;
      market_stats = 5;
    };
    max_http_inflight = 24;
    max_admission_waiters = 56;
    admission_timeout = 10 * second;
    lanes_per_exchange = record {
      tickers = record {
        http_slots = 2;
        waiters = 4;
        cycle_timeout = 15 * second;
        max_attempts = 9;
      };
      instruments = record {
        http_slots = 2;
        waiters = 4;
        cycle_timeout = minute;
        max_attempts = 100;
      };
      klines = record { http_slots = 6; waiters = 16; max_attempts = 12 };
      market_stats = record {
        http_slots = 2;
        waiters = 4;
        cycle_timeout = 15 * second;
        max_attempts = 3;
      };
    };
    limits = default_limits;
    cooldown = record {
      binance_429 = minute;
      binance_418 = 72 * hour;
      bybit_429 = minute;
      bybit_10006 = minute;
      bybit_403_access_too_frequent = 10 * minute;
    };
  };
  exchanges = record {
    bybit = record {
      enabled = true;
      markets = bytes "spot" ∷ bytes "linear" ∷ [];
      instruments = record { refresh_interval = 10 * minute };
      klines = record {
        max_candles_per_request = record {
          spot = bybit_kline_maximum;
          linear = bybit_kline_maximum;
        };
      };
    };
    binance = record {
      enabled = true;
      markets = bytes "spot" ∷ bytes "linear" ∷ [];
      instruments = record { refresh_interval = 10 * minute };
      klines = record {
        max_candles_per_request = record {
          spot = binance_spot_kline_maximum;
          linear = binance_linear_kline_maximum;
        };
      };
      market_stats = record { refresh_interval = 30 * second };
    };
  };
  http_client = record {
    timeout = 10 * second;
    max_response_bytes = 16777216;
    retry = record {
      max_attempts = 3;
      initial_backoff = 100 * millisecond;
      max_backoff = 2 * second;
    };
  };
  observability = record {
    sentry = record {
      enabled = false;
      dsn = bytes "";
      environment = bytes "local";
      traces_sample_rate = finite false 3602879701896397 36028797018963978;
    };
    prometheus = record { enabled = false; path = bytes "/metrics" };
    stats = record { enabled = true; endpoint_enabled = false };
  };
}
