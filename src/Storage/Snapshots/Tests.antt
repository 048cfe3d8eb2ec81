-- ===== src/Storage/Snapshots/Tests.antt =====
-- Runs of the snapshot repositories, and the theorem about them at a concrete input.
use market_data.Prelude.{ℕ, ◌≡◌, refl, none, some, [], ◌∷◌, List, ite, ℕ_discrete}
use market_data.Prelude.Map.{get, put}
use market_data.Prelude.Text.{bytes, Text-discrete}
use market_data.Errors.{Result, ok, err, invalid_upstream_data, data_not_ready}
use market_data.Domain.Names.{
  binance, bybit, spot, Exchange-discrete, Market-discrete, valid_exchange, valid_market,
}
use market_data.Domain.Market.{Text}
use market_data.Domain.Snapshot.{Ticker}
use market_data.Domain.Time.{zero_time}
use market_data.Application.Context.{background}
use market_data.Application.Series.{Scope, Scope-discrete}
use market_data.Storage.Klines.{validate_scope}
use market_data.Storage.Snapshots.{Repository, stage_rows, replace_rows}
use market_data.Storage.Snapshots.Kinds.{ticker_shape, replace_tickers, list_tickers}
use market_data.Storage.Snapshots.Replace.{row_of, held, replace_rows-get}

abbrev pub binance_spot : Scope
binance_spot = record { exchange = binance; market = spot }

abbrev bybit_spot : Scope
bybit_spot = record { exchange = bybit; market = spot }

abbrev price : Text → ℕ → Ticker ℕ
price symbol last = record {
  exchange = binance;
  market = spot;
  symbol = symbol;
  last_price = last;
  bid_price = none;
  bid_size = none;
  ask_price = none;
  ask_size = none;
  funding_rate = none;
  next_funding_at = none;
  fetched_at = zero_time;
}

abbrev pub batch : List (Ticker ℕ)
batch = price (bytes "ETHUSDT") 3000 ∷ price (bytes "BTCUSDT") 60000 ∷ []

abbrev replaced : Repository Scope (Ticker ℕ) × Result (Unit {0})
replaced = replace_rows (ticker_shape ℕ) background binance_spot batch []

replaced_ok : replaced.1 ≡ ok tt
unfolding replace_rows stage_rows validate_scope valid_exchange valid_market get put Text-discrete
    ℕ_discrete Exchange-discrete Market-discrete
replaced_ok = refl

-- The list is sorted by symbol; a scope without a snapshot is not ready.
listed :
    (list_tickers ℕ background
        (record { scopes = binance_spot ∷ binance_spot ∷ []; symbol = none })
        replaced.0
      ≡ ok (price (bytes "BTCUSDT") 60000 ∷ price (bytes "ETHUSDT") 3000 ∷ []))
    × (list_tickers ℕ background (record { scopes = bybit_spot ∷ []; symbol = none }) replaced.0
        ≡ err data_not_ready)
unfolding replace_rows stage_rows list_tickers validate_scope valid_exchange valid_market get put
    Text-discrete ℕ_discrete Exchange-discrete Market-discrete Scope-discrete
listed = (refl, refl)

-- A repeated symbol is refused.
repeated :
    (replace_tickers ℕ background binance_spot
      (price (bytes "A") 1 ∷ price (bytes "A") 2 ∷ [])
      []).1
    ≡ err invalid_upstream_data
unfolding replace_tickers validate_scope valid_exchange valid_market get put Text-discrete
    ℕ_discrete Exchange-discrete Market-discrete
repeated = refl

replace_rows-get_example :
    held (ticker_shape ℕ) (get Scope-discrete binance_spot replaced.0) (bytes "BTCUSDT")
    ≡ ite
        (Scope-discrete binance_spot binance_spot)
        (some (row_of (ticker_shape ℕ) (bytes "BTCUSDT") batch))
        (held (ticker_shape ℕ) (get Scope-discrete binance_spot []) (bytes "BTCUSDT"))
replace_rows-get_example =
    replace_rows-get (ticker_shape ℕ) background binance_spot binance_spot (bytes "BTCUSDT") batch
      [] replaced_ok
