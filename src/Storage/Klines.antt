-- ===== src/Storage/Klines.antt =====
-- internal/infrastructure/storage/memory/kline.go: the candle repository. A method takes the
-- repository under its lock, so each is one step; the clock is read once, so `now` is an argument.
-- Go maps are the maps of `Prelude.Map`; `UTC` and the copies of decimals and pointers change no
-- value. A method that can fail returns the repository it leaves beside its result.
pub mod Upsert
pub mod Read
pub mod Evidence
pub mod Merge
pub mod Commit
pub mod Staging
pub mod Touched
pub mod Cutoffs
pub mod Write
pub mod Range
pub mod Delete
pub mod Counts
pub mod Forward
pub mod Tests
use market_data.Prelude.{
  ℕ, suc, ◌+◌, Bool, true, false, not, ◌&&◌, ◌||◌, ltb, leb, ◌==◌, if◌then◌else◌, Option, none,
  some, List, [], ◌∷◌, length, ℕ_discrete,
}
use market_data.Prelude.Int.{pos, ltb_ℤ}
use market_data.Prelude.Map.{Map, get, put, delete, keep}
use market_data.Errors.{
  Error, Result, ok, err, both, ◌>>=◌, ◌>>◌, guard, wrapped, invalid_parameter, invalid_filter,
  invalid_interval, invalid_range, invalid_upstream_data,
}
use market_data.Domain.Names.{Timeframe, Timeframe-discrete, valid_exchange, valid_market}
use market_data.Domain.Time.{Time, before, after, is_zero, zero_time, unix}
use market_data.Domain.Timeframe.{Calendar, new_calendar, next, validate_boundary, history_cutoff}
use market_data.Domain.Market.{Kline}
use market_data.Application.Context.{Context, check}
use market_data.Application.Series.{Scope, Series, Query, Stored, Scope-discrete, Series-discrete}

pub record CandleScope : Type 0 where
  pub scope : Scope
  pub interval : Timeframe

unfoldable pub CandleScope-discrete : Discrete CandleScope
unfolding Scope-discrete Timeframe-discrete
CandleScope-discrete = hlevel (Scope-discrete, Timeframe-discrete)

pub record StoredCandle (D : Type 0) : Type 0 where
  pub close_time : Time
  pub fetched_at : Time
  pub request_started_at : Time
  pub open_price : D
  pub high : D
  pub low : D
  pub close_price : D
  pub volume : D
  pub turnover : D
  pub trades_count : Option ℕ

-- The rows of a series by start, and the rows of every series.
abbrev pub Rows : Type 0 → Type 0
Rows D = Map Time (StoredCandle D)

abbrev pub Table : Type 0 → Type 0
Table D = Map Series (Rows D)

pub record Repository (D : Type 0) : Type 0 where
  pub series : Table D
  pub cutoffs : Map CandleScope Time
  pub history_candles : ℕ

unfoldable pub validate_scope : Scope → Result (Unit {0})
unfolding valid_exchange valid_market
validate_scope s =
    guard (not (not (valid_exchange s.exchange) || not (valid_market s.market))) invalid_filter

abbrev is_empty : List ℕ → Bool
is_empty [] = true
is_empty _ = false

unfoldable pub series_calendar : Series → Result Calendar
series_calendar s = do
  validate_scope s.scope
  guard (not (is_empty s.symbol)) invalid_filter
  wrapped (both invalid_interval) (new_calendar s.exchange s.market s.interval)

-- The rows under a key: a missing key of a Go map reads as the empty map.
abbrev pub rows_at {ℓ} : {V : Type ℓ} → Option (List V) → List V
rows_at none = []
rows_at (some m) = m

abbrev pub time_at : Option Time → Time
time_at none = zero_time
time_at (some t) = t

abbrev pub candle_scope : Series → CandleScope
candle_scope s = record { scope = s.scope; interval = s.interval }

-- A candle is final once the request for it started at or after its close.
abbrev pub is_final : {D : Type 0} → StoredCandle D → Bool
is_final row = not (before row.request_started_at row.close_time)

abbrev no_rows {ℓ} : {V : Type ℓ} → List V → Bool
no_rows [] = true
no_rows _ = false

module _ {D : Type 0} where
  unfoldable pub replaces_candle : StoredCandle D → StoredCandle D → Bool
  replaces_candle stored incoming =
      if not (before stored.request_started_at stored.close_time)
      then false
      else if not (before incoming.request_started_at incoming.close_time)
      then true
      else (after incoming.request_started_at stored.request_started_at
          || (incoming.request_started_at == stored.request_started_at
              && after incoming.fetched_at stored.fetched_at))

  unfoldable pub candle : StoredCandle D → Series → Time → Kline D
  candle row s start = record {
    exchange = s.exchange;
    market = s.market;
    symbol = s.symbol;
    interval = s.interval;
    open_time = start;
    close_time = row.close_time;
    open_price = row.open_price;
    high = row.high;
    low = row.low;
    close_price = row.close_price;
    volume = row.volume;
    turnover = row.turnover;
    trades_count = row.trades_count;
    fetched_at = row.fetched_at;
  }

  unfoldable pub stored_candle : Stored D → StoredCandle D
  stored_candle row = record {
    close_time = row.candle.close_time;
    fetched_at = row.candle.fetched_at;
    request_started_at = row.request_started_at;
    open_price = row.candle.open_price;
    high = row.candle.high;
    low = row.candle.low;
    close_price = row.candle.close_price;
    volume = row.candle.volume;
    turnover = row.candle.turnover;
    trades_count = row.candle.trades_count;
  }

  unfoldable pub new_repository : ℕ → Result (Repository D)
  new_repository history =
      if leb history 0
      then err invalid_parameter
      else ok (record { series = []; cutoffs = []; history_candles = history })

  -- Runs under the write lock.
  unfoldable pub prune : Series → Time → Table D → Table D
  prune s cutoff m =
      let kept = keep (λ start _. not (before start cutoff)) (rows_at (get Series-discrete s m)) in
      if no_rows kept then delete Series-discrete s m else put Series-discrete s kept m
