-- ===== src/Storage/Klines/Tests.antt =====
-- Runs of the candle repository, and the theorems about it at concrete inputs.
use market_data.Prelude.{
  ℕ, ◌+◌, ◌*◌, ◌<◌, ◌≡◌, refl, true, ◌&&◌, none, some, List, [], ◌∷◌, ◌⊎◌, ℕ_discrete, arith,
}
use market_data.Prelude.Int.{◌*ℤ◌}
use market_data.Prelude.Map.{get, put}
use market_data.Errors.{ok, err, invalid_upstream_data}
use market_data.Domain.Names.{
  binance, spot, m1, valid_exchange, valid_market, valid_timeframe, Timeframe-discrete,
}
use market_data.Domain.Time.{
  Time, second, unix_epoch, year, year_of_day, year_start, leap, month_of_day, before,
}
use market_data.Domain.Timeframe.{
  new_calendar, floor, validate_boundary, shift, shift_seconds, next, history_cutoff,
}
use market_data.Application.Context.{background}
use market_data.Application.Series.{Series, Query, Stored, Series-discrete, Scope-discrete}
use market_data.Storage.Klines.{
  Repository, StoredCandle, CandleScope, CandleScope-discrete, replaces_candle, stored_candle,
  validate_scope, series_calendar, time_at, candle_scope, is_final, candle, prune,
}
use market_data.Storage.Klines.Upsert.{
  validate_row, stage_cutoff, stage_row, stage, stage_batch, upsert_many,
}
use market_data.Storage.Klines.Read.{
  validated, select, insert_by_time, sort_by_time, get_range, prune_scope, delete_before, later,
  in_scope, count_at, count_series, candle_counts,
}
use market_data.Storage.Klines.Merge.{find, Tidy}
use market_data.Storage.Klines.Staging.{batch_at, touches}
use market_data.Storage.Klines.Write.{written, upsert_many-find, upsert_many_final}
use market_data.Storage.Klines.Range.{Ascending, at, returned, get_range-rows}
use market_data.Storage.Klines.Delete.{cut, delete_before-find}
use market_data.Storage.Klines.Counts.{total, candle_counts-total}

abbrev pub btc : Series
btc = record {
  scope = record { exchange = binance; market = spot };
  symbol = 66 ∷ [];
  interval = m1;
}

-- Minute n of Unix time, and second s of it.
abbrev pub minute : ℕ → ℕ → Time
minute n s = (unix_epoch + n * 60 + s) * second

-- The candle of minute n with a price, requested at second s after its start.
abbrev row : ℕ → ℕ → ℕ → Stored ℕ
row n s price = record {
  candle = record {
    exchange = binance;
    market = spot;
    symbol = 66 ∷ [];
    interval = m1;
    open_time = minute n 0;
    close_time = minute (n + 1) 0;
    open_price = price;
    high = price;
    low = price;
    close_price = price;
    volume = 1;
    turnover = 1;
    trades_count = none;
    fetched_at = minute n (s + 1);
  };
  request_started_at = minute n s;
}

abbrev empty : Repository ℕ
empty = record { series = []; cutoffs = []; history_candles = 3 }

abbrev now : Time
now = minute 1000 30

abbrev batch : List (Stored ℕ)
batch = row 999 70 5 ∷ row 1000 20 7 ∷ []

-- What a run of the repository unfolds.
unfoldable pub run : ℕ
unfolding upsert_many stage_batch stage stage_row stage_cutoff validate_row series_calendar
    validate_scope new_calendar next shift shift_seconds validate_boundary history_cutoff floor get
    put Series-discrete CandleScope-discrete ℕ_discrete valid_timeframe valid_exchange valid_market
    ◌*ℤ◌ year_of_day year_start year leap month_of_day
run = 0

writes : (upsert_many background now batch empty).1 ≡ ok tt
unfolding run
writes = refl

empty-Tidy : Tidy empty.series
unfolding get
empty-Tidy s = tt

upsert_many-find_example :
    find btc (minute 1000 0) (upsert_many background now batch empty).0.series
    ≡ written
        (touches btc batch)
        (time_at (
          get CandleScope-discrete
            (candle_scope btc)
            (upsert_many background now batch empty).0.cutoffs))
        (minute 1000 0)
        (batch_at btc (minute 1000 0) batch)
        (find btc (minute 1000 0) empty.series)
upsert_many-find_example =
    upsert_many-find background now (row 999 70 5) (row 1000 20 7 ∷ []) empty btc (minute 1000 0)
      empty-Tidy writes

abbrev final : StoredCandle ℕ
final = stored_candle (row 999 70 5)

-- The candle of minute 999 is final, and the cutoff is minute 997.
abbrev pub kept : Repository ℕ
kept = record {
  series = (btc, (minute 999 0, final) ∷ []) ∷ [];
  cutoffs = (candle_scope btc, minute 997 0) ∷ [];
  history_candles = 3;
}

pub kept-Tidy : Tidy kept.series
unfolding get
kept-Tidy s = ground arith

-- A correction of the final candle, in a batch with a new candle.
abbrev correction : List (Stored ℕ)
correction = row 999 90 6 ∷ row 1000 20 7 ∷ []

kept_final : find btc (minute 999 0) kept.series ≡ some final
unfolding run
kept_final = refl

final-IsFinal : is_final final ≡ true
unfolding stored_candle
final-IsFinal = refl

upsert_many_final_example :
    let r' = (upsert_many background now correction kept).0 in
    (find btc (minute 999 0) r'.series ≡ some final)
    ⊎ ((find btc (minute 999 0) r'.series ≡ none)
        × (minute 999 0 < time_at (get CandleScope-discrete (candle_scope btc) r'.cutoffs)))
upsert_many_final_example =
    upsert_many_final background now correction kept btc (minute 999 0) final kept-Tidy kept_final
      final-IsFinal

-- The second candle of one minute is refused, after the first was staged.
abbrev repeated : List (Stored ℕ)
repeated = row 1000 20 7 ∷ row 1000 25 8 ∷ []

repeated_fails : (upsert_many background now repeated kept).1 ≡ err invalid_upstream_data
unfolding run
repeated_fails = refl

-- Minutes 998 to 1000.
abbrev minutes : Query
minutes = record { series = btc; from = minute 998 0; to = minute 1000 0 }

loaded : get_range background minutes kept ≡ ok (row 999 70 5 ∷ [])
unfolding run get_range select sort_by_time insert_by_time candle stored_candle
loaded = refl

get_range-rows_example :
    Ascending (row 999 70 5 ∷ [])
    × ((t : Time) → at t (row 999 70 5 ∷ []) ≡ returned minutes t (find btc t kept.series))
get_range-rows_example = get_range-rows background minutes kept (row 999 70 5 ∷ []) kept-Tidy loaded

deletes : (delete_before background btc.scope m1 (minute 1000 0) kept).1 ≡ ok tt
unfolding run delete_before validated prune_scope prune Scope-discrete Timeframe-discrete
deletes = refl

delete_before-find_example :
    let r' = (delete_before background btc.scope m1 (minute 1000 0) kept).0 in
    let key : CandleScope = record { scope = btc.scope; interval = m1 } in
    let final_cutoff = later (minute 1000 0) (get CandleScope-discrete key kept.cutoffs) in
    (get CandleScope-discrete key r'.cutoffs ≡ some final_cutoff)
    × ((s : Series) (t : Time)
        → find s t r'.series
          ≡ cut (in_scope btc.scope m1 s && before t final_cutoff) (find s t kept.series))
delete_before-find_example =
    delete_before-find background btc.scope m1 (minute 1000 0) kept kept-Tidy deletes

one_candle : candle_counts background kept ≡ ok ((btc.scope, 1) ∷ [])
unfolding run candle_counts count_series put get Scope-discrete
one_candle = refl

candle_counts-total_example :
    count_at (get Scope-discrete btc.scope ((btc.scope, 1) ∷ [])) ≡ total btc.scope kept.series
candle_counts-total_example =
    candle_counts-total background kept ((btc.scope, 1) ∷ []) btc.scope one_candle

-- Minute 1000 as three requests saw it: at 10 and at 20 seconds, and after its close.
abbrev early : StoredCandle ℕ
early = stored_candle (row 1000 10 5)

abbrev late : StoredCandle ℕ
late = stored_candle (row 1000 20 6)

abbrev closed : StoredCandle ℕ
closed = stored_candle (row 1000 70 7)

replaced_once : replaces_candle early late ≡ true
unfolding replaces_candle stored_candle
replaced_once = refl

replaced_again : replaces_candle late closed ≡ true
unfolding replaces_candle stored_candle
replaced_again = refl
