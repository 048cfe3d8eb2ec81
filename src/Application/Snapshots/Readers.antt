-- ===== src/Application/Snapshots/Readers.antt =====
-- The readers of internal/application/ticker, marketstats and instrument: their filters and the
-- read model of tickers.
use market_data.Prelude.{
  ℕ, ◌-◌, Bool, true, false, ◌||◌, if◌then◌else◌, Option, none, some, List, [], map,
}
use market_data.Prelude.Text.{bytes, same_text}
use market_data.Errors.{Result, err, ok, ◌>>=◌, ◌>>◌, guard, unsupported_window, invalid_status}
use market_data.Domain.Names.{Exchange, Market}
use market_data.Domain.Market.{Text}
use market_data.Domain.Snapshot.{Ticker, MarketStats, Instrument, InstrumentStatus}
use market_data.Domain.Time.{Time, after}
use market_data.Application.Context.{Context}
use market_data.Application.Series.{Scope}
use market_data.Application.Snapshot.{SnapshotQuery, SnapshotFilter, select_snapshot}
use market_data.Storage.Snapshots.{Repository}
use market_data.Storage.Snapshots.Kinds.{StatsScope, list_tickers, list_stats, list_instruments}
use market_data.Application.Snapshots.{one_day}

-- The window of statistics that a reader may ask for.
unfoldable pub stats_filter : List Scope → SnapshotQuery → Text → Result (SnapshotFilter × ℕ)
unfolding select_snapshot
stats_filter scopes q window = do
  selected ← select_snapshot scopes q
  guard (same_text window [] || same_text window (bytes "24h")) unsupported_window
  ok (selected, one_day)

-- `InstrumentStatus.Valid`.
unfoldable pub valid_status : InstrumentStatus → Bool
valid_status (InstrumentStatus.other n) = false
valid_status _ = true

abbrev status_filter : Option InstrumentStatus → Result (Option InstrumentStatus)
status_filter none = ok none
status_filter (some status) = if valid_status status then ok (some status) else err invalid_status

-- A status that is the empty string is `none`.
unfoldable pub instrument_filter :
    List Scope
    → SnapshotQuery
    → Option InstrumentStatus
    → Result (SnapshotFilter × Option InstrumentStatus)
unfolding select_snapshot valid_status
instrument_filter scopes q status = do
  selected ← select_snapshot scopes q
  wanted ← status_filter status
  ok (selected, wanted)

pub record ReadModel (D : Type 0) : Type 0 where
  pub exchange : Exchange
  pub market : Market
  pub symbol : Text
  pub last_price : D
  pub bid_price : Option D
  pub bid_size : Option D
  pub ask_price : Option D
  pub ask_size : Option D
  pub funding_rate : Option D
  pub next_funding_in : Option ℕ
  pub fetched_at : Time

abbrev pub remaining : Time → Option Time → Option ℕ
remaining now none = none
remaining now (some at) = if after at now then some (at - now) else none

module _ {D : Type 0} where
  abbrev pub read_model : Time → Ticker D → ReadModel D
  read_model now row = record {
    exchange = row.exchange;
    market = row.market;
    symbol = row.symbol;
    last_price = row.last_price;
    bid_price = row.bid_price;
    bid_size = row.bid_size;
    ask_price = row.ask_price;
    ask_size = row.ask_size;
    funding_rate = row.funding_rate;
    next_funding_in = remaining now row.next_funding_at;
    fetched_at = row.fetched_at;
  }

  -- `Reader.List` of tickers, with the model built at the time `now`.
  unfoldable pub read_tickers :
      Context
      → List Scope
      → SnapshotQuery
      → Time
      → Repository Scope (Ticker D)
      → Result (List (ReadModel D))
  unfolding select_snapshot list_tickers
  read_tickers ctx scopes q now r = do
    filter ← select_snapshot scopes q
    rows ← list_tickers D ctx filter r
    ok (map (read_model now) rows)

  unfoldable pub read_stats :
      Context
      → List Scope
      → SnapshotQuery
      → Text
      → Repository StatsScope (MarketStats D)
      → Result (List (MarketStats D))
  unfolding stats_filter list_stats
  read_stats ctx scopes q window r = do
    filter ← stats_filter scopes q window
    list_stats D ctx filter.0 filter.1 r

  unfoldable pub read_instruments :
      Context
      → List Scope
      → SnapshotQuery
      → Option InstrumentStatus
      → Repository Scope (Instrument D)
      → Result (List (Instrument D))
  unfolding instrument_filter list_instruments
  read_instruments ctx scopes q status r = do
    filter ← instrument_filter scopes q status
    list_instruments D ctx filter.0 filter.1 r
