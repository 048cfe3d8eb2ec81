-- ===== src/Application/Snapshots.antt =====
-- internal/application/ticker, marketstats and instrument: the filters of the readers, the read
-- model of tickers, and one refresh of each kind, over the repositories of snapshots. What a
-- provider answers is an argument; `deferred` tells which errors `DeferredRefresh` finds to be
-- deferrals. The observers are there, and `events` holds what they saw, the newest first.
pub mod Readers
pub mod Published
mod Tests
use market_data.Prelude.{
  ℕ, ◌-◌, ◌*◌, Bool, true, false, not, ◌&&◌, ◌||◌, if◌then◌else◌, Option, none, some, List, [], ◌∷◌,
  length, map,
}
use market_data.Prelude.Text.{bytes, same_text}
use market_data.Errors.{
  Error, Result, err, ok, ◌>>=◌, ◌>>◌, guard, both, unsupported_window, invalid_status,
  invalid_upstream_data,
}
use market_data.Domain.Names.{Exchange, Market}
use market_data.Domain.Market.{Text}
use market_data.Domain.Snapshot.{Ticker, MarketStats, Instrument, InstrumentStatus}
use market_data.Domain.Time.{Time, second, after, zero_time}
use market_data.Application.Context.{Context}
use market_data.Application.Series.{Scope}
use market_data.Application.Snapshot.{SnapshotQuery, SnapshotFilter, select_snapshot}
use market_data.Storage.Snapshots.{Repository}
use market_data.Storage.Snapshots.Kinds.{
  StatsScope, replace_tickers, replace_stats, replace_instruments, list_tickers, list_stats,
  list_instruments,
}

-- 24 hours.
abbrev pub one_day : ℕ
one_day = 86400 * second

pub record RefreshEvent : Type 0 where
  pub scope : Scope
  pub window : ℕ
  pub fetched_at : Time
  pub size : ℕ
  pub failure : Option Error

pub record Collection (D : Type 0) : Type 0 where
  pub fetched_at : Time
  pub tickers : List (Ticker D)
  pub ticker_error : Option Error
  pub has_market_stats : Bool
  pub market_stats : List (MarketStats D)
  pub market_stats_error : Option Error

-- `RefreshEvent` of package instrument.
pub record InstrumentEvent : Type 0 where
  pub scope : Scope
  pub updated_at : Time
  pub size : ℕ
  pub failure : Option Error

-- The snapshots and the events.
pub record Snapshots (D : Type 0) : Type 0 where
  pub tickers : Repository Scope (Ticker D)
  pub stats : Repository StatsScope (MarketStats D)
  pub instruments : Repository Scope (Instrument D)
  pub events : List RefreshEvent
  pub instrument_events : List InstrumentEvent

abbrev pub failure_of : Result (Unit {0}) → Option Error
failure_of (ok _) = none
failure_of (err e) = some e

-- `errors.Join`.
abbrev pub joined_errors : Option Error → Option Error → Option Error
joined_errors none f = f
joined_errors (some e) none = some e
joined_errors (some e) (some f) = some (both e f)

-- `if s.observe != nil && application.DeferredRefresh(event.Error) == nil { s.observe(event) }`.
abbrev pub observed : (Error → Bool) → RefreshEvent → List RefreshEvent → List RefreshEvent
observed deferred event events = unless event.failure
  where
    unless : Option Error → List RefreshEvent
    unless none = event ∷ events
    unless (some e) = if deferred e then events else event ∷ events

abbrev pub or_else : Option Error → Option Error → Option Error
or_else none f = f
or_else (some e) f = some e

abbrev pub missing_stats : Bool → Bool → Option Error → Option Error
missing_stats shared has failure = if shared && not has then some invalid_upstream_data else failure

abbrev told : (Error → Bool) → InstrumentEvent → List InstrumentEvent → List InstrumentEvent
told deferred event events = unless event.failure
  where
    unless : Option Error → List InstrumentEvent
    unless none = event ∷ events
    unless (some e) = if deferred e then events else event ∷ events

-- A branch of a refresh: its rows are written unless it failed.
abbrev pub branch : {R : Type 0} → Option Error → R × Result (Unit {0}) → R → R × Option Error
branch (some e) written r = (r, some e)
branch none (r', result) r = (r', failure_of result)

module _ {D : Type 0} where
  abbrev pub first_ticker : Time → List (Ticker D) → Time
  first_ticker t [] = t
  first_ticker t (row ∷ rows) = row.fetched_at

  abbrev pub first_stats : Time → List (MarketStats D) → Time
  first_stats t [] = t
  first_stats t (row ∷ rows) = row.fetched_at

  -- The two branches of a refresh of tickers: the contexts that the repositories see are `ctx`
  -- and `ctx'`, `failure` is the error of the provider beside what it collected.
  abbrev pub ticker_branch :
      Context
      → Scope
      → Option Error
      → Collection D
      → Repository Scope (Ticker D)
      → Repository Scope (Ticker D) × Option Error
  ticker_branch ctx scope failure c r =
      branch (or_else failure c.ticker_error) (replace_tickers D ctx scope c.tickers r) r

  abbrev pub stats_branch :
      Context
      → Scope
      → Bool
      → Option Error
      → Collection D
      → Repository StatsScope (MarketStats D)
      → Repository StatsScope (MarketStats D) × Option Error
  stats_branch ctx scope shared failure c r =
      branch (or_else failure (missing_stats shared c.has_market_stats c.market_stats_error))
        (replace_stats D ctx scope one_day c.market_stats r) r

  -- The rest of a refresh, where the provider sends statistics with tickers.
  unfoldable pub finish_refresh :
      (Error → Bool)
      → Context
      → Scope
      → Bool
      → Option Error
      → Collection D
      → Option Error
      → Snapshots D
      → Snapshots D × Option Error
  unfolding replace_stats
  finish_refresh deferred ctx scope false failure c ticker_failure s = (s, ticker_failure)
  finish_refresh deferred ctx scope true failure c ticker_failure s =
      let (stats, stats_failure) = stats_branch ctx scope true failure c s.stats in
      let event : RefreshEvent = record {
        scope = scope;
        window = one_day;
        fetched_at = first_stats c.fetched_at c.market_stats;
        size = length c.market_stats;
        failure = stats_failure;
      } in
      (
        record s { stats = stats; events = observed deferred event s.events },
        joined_errors ticker_failure stats_failure,
      )

  unfoldable pub refresh_tickers :
      (Error → Bool)
      → Context
      → Context
      → Scope
      → Bool
      → Option Error
      → Collection D
      → Snapshots D
      → Snapshots D × Option Error
  unfolding replace_tickers finish_refresh
  refresh_tickers deferred ctx ctx' scope shared failure c s =
      let (tickers, ticker_failure) = ticker_branch ctx scope failure c s.tickers in
      let event : RefreshEvent = record {
        scope = scope;
        window = 0;
        fetched_at = first_ticker c.fetched_at c.tickers;
        size = length c.tickers;
        failure = ticker_failure;
      } in
      finish_refresh deferred ctx' scope shared failure c ticker_failure
        (record s { tickers = tickers; events = observed deferred event s.events })

  abbrev rows_or_none : Result (List (MarketStats D)) → List (MarketStats D)
  rows_or_none (err e) = []
  rows_or_none (ok rows) = rows

  abbrev stats_time : Option Error → Time → List (MarketStats D) → Time
  stats_time (some e) now rows = zero_time
  stats_time none now rows = first_stats now rows

  -- `Refresher.Refresh` of statistics. A provider that fails gives no rows.
  unfoldable pub refresh_stats :
      (Error → Bool)
      → Context
      → Scope
      → Time
      → Result (List (MarketStats D))
      → Snapshots D
      → Snapshots D × Option Error
  unfolding replace_stats
  refresh_stats deferred ctx scope now answer s =
      let rows = rows_or_none answer in
      let (stats, failure) =
        branch (failure_of (answer >>= λ x. ok tt)) (replace_stats D ctx scope one_day rows s.stats)
          s.stats in
      let event : RefreshEvent = record {
        scope = scope;
        window = one_day;
        fetched_at = stats_time failure now rows;
        size = length rows;
        failure = failure;
      } in
      (record s { stats = stats; events = observed deferred event s.events }, failure)

  abbrev updated_at : Time → List (Instrument D) → List (Instrument D)
  updated_at now [] = []
  updated_at now (row ∷ rows) = record row { updated_at = now } ∷ updated_at now rows

  -- The deferred call of a refresh of instruments.
  abbrev concluded :
      (Error → Bool)
      → Scope
      → Time
      → ℕ
      → Repository Scope (Instrument D) × Result (Unit {0})
      → Snapshots D
      → Snapshots D × Option Error
  concluded deferred scope now size (instruments, result) s =
      let failure = failure_of result in
      let event : InstrumentEvent = record {
        scope = scope;
        updated_at = published failure now;
        size = sized failure;
        failure = failure;
      } in
      (
        record s {
          instruments = instruments;
          instrument_events = told deferred event s.instrument_events;
        },
        failure,
      )
    where
      published : Option Error → Time → Time
      published none t = t
      published (some e) t = zero_time

      sized : Option Error → ℕ
      sized none = size
      sized (some e) = 0

  -- `Refresher.Refresh` of instruments: `alive` is the check of the context after the provider's
  -- answer, `now` the time of the update. A panic, which the deferred call reports too, is not
  -- modelled.
  unfoldable pub refresh_instruments :
      (Error → Bool)
      → Context
      → Scope
      → Time
      → Result (List (Instrument D))
      → Option Error
      → Snapshots D
      → Snapshots D × Option Error
  unfolding replace_instruments
  refresh_instruments deferred ctx scope now (err e) alive s =
      concluded deferred scope now 0 (s.instruments, err e) s
  refresh_instruments deferred ctx scope now (ok rows) (some e) s =
      concluded deferred scope now 0 (s.instruments, err e) s
  refresh_instruments deferred ctx scope now (ok rows) none s =
      concluded deferred scope now (length rows)
        (replace_instruments D ctx scope (updated_at now rows) s.instruments) s
