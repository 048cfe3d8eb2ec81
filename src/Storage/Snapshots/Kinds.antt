-- ===== src/Storage/Snapshots/Kinds.antt =====
-- The three repositories of snapshots: internal/infrastructure/storage/memory/ticker.go,
-- market_stats.go and instrument.go, each an instance of `Shape`.
use market_data.Prelude.{
  ℕ, Bool, true, false, not, ◌&&◌, ltb, ◌==◌, Option, none, some, List, [], ◌∷◌, length, ite,
  ℕ_discrete,
}
use market_data.Prelude.Text.{same_text}
use market_data.Errors.{Result, guard, ◌>>◌, unsupported_window}
use market_data.Domain.Names.{Exchange, Market, Exchange-discrete, Market-discrete}
use market_data.Domain.Market.{Text}
use market_data.Domain.Snapshot.{Ticker, MarketStats, Instrument, InstrumentStatus}
use market_data.Application.Context.{Context}
use market_data.Application.Series.{Scope, Scope-discrete}
use market_data.Application.Snapshot.{SnapshotFilter}
use market_data.Storage.Klines.{validate_scope}
use market_data.Storage.Snapshots.{Shape, Repository, replace_rows, has_rows, get_row, list_rows}

pub record StatsScope : Type 0 where
  pub scope : Scope
  pub window : ℕ

unfoldable pub StatsScope-discrete : Discrete StatsScope
StatsScope-discrete = hlevel (Scope-discrete, ℕ_discrete)

unfoldable pub InstrumentStatus-discrete : Discrete InstrumentStatus
InstrumentStatus-discrete = hlevel ℕ_discrete

-- Does a row lie in the scope, with a symbol that is not empty?
abbrev in_scope : Scope → Exchange → Market → Text → Bool
in_scope s exchange market symbol =
    ite (Exchange-discrete exchange s.exchange) true false
    && ite (Market-discrete market s.market) true false
    && not (length symbol == 0)

abbrev pub symbol_passes : Option Text → Text → Bool
symbol_passes none symbol = true
symbol_passes (some t) symbol = same_text symbol t

abbrev pub status_passes : Option InstrumentStatus → InstrumentStatus → Bool
status_passes none status = true
status_passes (some t) status = ite (InstrumentStatus-discrete status t) true false

module _ (D : Type 0) where
  abbrev pub ticker_shape : Shape Scope (Ticker D)
  ticker_shape = record {
    same_key = Scope-discrete;
    scope_of = λ s. s;
    allowed = validate_scope;
    belongs = λ s row. in_scope s row.exchange row.market row.symbol;
    exchange_of = λ row. row.exchange;
    market_of = λ row. row.market;
    symbol_of = λ row. row.symbol;
  }

  abbrev pub stats_shape : Shape StatsScope (MarketStats D)
  stats_shape = record {
    same_key = StatsScope-discrete;
    scope_of = λ k. k.scope;
    allowed = λ k. validate_scope k.scope >> guard (ltb 0 k.window) unsupported_window;
    belongs =
        λ k row. in_scope k.scope row.exchange row.market row.symbol && row.window == k.window;
    exchange_of = λ row. row.exchange;
    market_of = λ row. row.market;
    symbol_of = λ row. row.symbol;
  }

  abbrev pub instrument_shape : Shape Scope (Instrument D)
  instrument_shape = record {
    same_key = Scope-discrete;
    scope_of = λ s. s;
    allowed = validate_scope;
    belongs = λ s row. in_scope s row.exchange row.market row.symbol;
    exchange_of = λ row. row.exchange;
    market_of = λ row. row.market;
    symbol_of = λ row. row.symbol;
  }

  unfoldable pub replace_tickers :
      Context
      → Scope
      → List (Ticker D)
      → Repository Scope (Ticker D)
      → Repository Scope (Ticker D) × Result (Unit {0})
  unfolding replace_rows
  replace_tickers ctx scope rows r = replace_rows ticker_shape ctx scope rows r

  unfoldable pub has_tickers : Context → Scope → Repository Scope (Ticker D) → Result Bool
  unfolding has_rows
  has_tickers ctx scope r = has_rows ticker_shape ctx scope r

  unfoldable pub list_tickers :
      Context → SnapshotFilter → Repository Scope (Ticker D) → Result (List (Ticker D))
  unfolding list_rows
  list_tickers ctx filter r =
      list_rows ticker_shape ctx filter.scopes (λ row. symbol_passes filter.symbol row.symbol) r

  unfoldable pub get_ticker :
      Context → Scope → Text → Repository Scope (Ticker D) → Result (Option (Ticker D))
  unfolding get_row
  get_ticker ctx scope symbol r = get_row ticker_shape ctx scope symbol r

  unfoldable pub replace_stats :
      Context
      → Scope
      → ℕ
      → List (MarketStats D)
      → Repository StatsScope (MarketStats D)
      → Repository StatsScope (MarketStats D) × Result (Unit {0})
  unfolding replace_rows
  replace_stats ctx scope window rows r =
      replace_rows stats_shape ctx (record { scope = scope; window = window }) rows r

  unfoldable pub has_stats :
      Context → Scope → ℕ → Repository StatsScope (MarketStats D) → Result Bool
  unfolding has_rows
  has_stats ctx scope window r =
      has_rows stats_shape ctx (record { scope = scope; window = window }) r

  unfoldable pub list_stats :
      Context
      → SnapshotFilter
      → ℕ
      → Repository StatsScope (MarketStats D)
      → Result (List (MarketStats D))
  unfolding list_rows
  list_stats ctx filter window r =
      list_rows stats_shape ctx (with_window filter.scopes)
        (λ row. symbol_passes filter.symbol row.symbol) r
    where
      with_window : List Scope → List StatsScope
      with_window [] = []
      with_window (s ∷ ss) = record { scope = s; window = window } ∷ with_window ss

  unfoldable pub get_stats :
      Context
      → Scope
      → Text
      → ℕ
      → Repository StatsScope (MarketStats D)
      → Result (Option (MarketStats D))
  unfolding get_row
  get_stats ctx scope symbol window r =
      get_row stats_shape ctx (record { scope = scope; window = window }) symbol r

  unfoldable pub replace_instruments :
      Context
      → Scope
      → List (Instrument D)
      → Repository Scope (Instrument D)
      → Repository Scope (Instrument D) × Result (Unit {0})
  unfolding replace_rows
  replace_instruments ctx scope rows r = replace_rows instrument_shape ctx scope rows r

  unfoldable pub has_instruments : Context → Scope → Repository Scope (Instrument D) → Result Bool
  unfolding has_rows
  has_instruments ctx scope r = has_rows instrument_shape ctx scope r

  unfoldable pub list_instruments :
      Context
      → SnapshotFilter
      → Option InstrumentStatus
      → Repository Scope (Instrument D)
      → Result (List (Instrument D))
  unfolding list_rows
  list_instruments ctx filter status r =
      list_rows instrument_shape ctx filter.scopes
        (λ row. symbol_passes filter.symbol row.symbol && status_passes status row.status) r
