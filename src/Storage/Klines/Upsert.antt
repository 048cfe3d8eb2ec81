-- ===== src/Storage/Klines/Upsert.antt =====
-- `UpsertMany` of kline.go: the whole batch is staged before the rows and the cutoffs are touched.
use market_data.Prelude.{
  ℕ, suc, Bool, true, false, not, ◌&&◌, ◌||◌, ◌==◌, if◌then◌else◌, is_some, Option, none, some,
  List, [], ◌∷◌, length, ℕ_discrete,
}
use market_data.Prelude.Int.{pos, ltb_ℤ}
use market_data.Prelude.Map.{Map, get, put}
use market_data.Errors.{Result, ok, err, both, ◌>>=◌, ◌>>◌, guard, wrapped, invalid_upstream_data}
use market_data.Domain.Time.{Time, before, after, is_zero, unix}
use market_data.Domain.Timeframe.{Calendar, next, history_cutoff}
use market_data.Application.Context.{Context, check}
use market_data.Application.Series.{Series, Stored, Series-discrete}
use market_data.Storage.Klines.{
  Rows, Table, CandleScope, CandleScope-discrete, StoredCandle, Repository, series_calendar,
  rows_at, time_at, candle_scope, replaces_candle, stored_candle, prune,
}

-- What a batch writes: rows by series and start, and a retention cutoff for each scope.
pub record Staged (D : Type 0) : Type 0 where
  pub pending : Table D
  pub cutoffs : Map CandleScope Time

abbrev ends_at : Result Time → Time → Bool
ends_at (ok close) t = close == t
ends_at (err e) t = false

-- `cutoffs[scope]`, computed for the first row of its scope.
unfoldable pub stage_cutoff :
    ℕ → Time → Calendar → CandleScope → Map CandleScope Time → Result (Map CandleScope Time)
stage_cutoff history now calendar scope cutoffs =
    if is_some (get CandleScope-discrete scope cutoffs) then ok cutoffs else (do
      cutoff ← history_cutoff calendar now (pos history)
      ok (put CandleScope-discrete scope cutoff cutoffs))

-- `!exists || cutoff.After(applied)`.
abbrev pub raises : Time → Option Time → Bool
raises cutoff none = true
raises cutoff (some applied) = after cutoff applied

unfoldable pub raise_cutoffs : Map CandleScope Time → Map CandleScope Time → Map CandleScope Time
raise_cutoffs [] applied = applied
raise_cutoffs ((scope, cutoff) ∷ rest) applied = raise_cutoffs rest (
    if raises cutoff (get CandleScope-discrete scope applied)
    then put CandleScope-discrete scope cutoff applied
    else applied)

module _ {D : Type 0} where
  abbrev pub series_of : Stored D → Series
  series_of row = record {
    scope = record { exchange = row.candle.exchange; market = row.candle.market };
    symbol = row.candle.symbol;
    interval = row.candle.interval;
  }

  -- The checks of one row, in their order.
  unfoldable pub validate_row : Time → Stored D → Result Calendar
  validate_row now row = do
    calendar ← wrapped (both invalid_upstream_data) (series_calendar (series_of row))
    guard
        (ends_at (next calendar row.candle.open_time) row.candle.close_time
          && not (ltb_ℤ (unix row.candle.open_time) (pos 0)))
        invalid_upstream_data
    guard
        (not (
          is_zero row.request_started_at
          || is_zero row.candle.fetched_at
          || after row.request_started_at row.candle.fetched_at))
        invalid_upstream_data
    guard (not (after row.candle.open_time now)) invalid_upstream_data
    ok calendar

  unfoldable pub stage_row : ℕ → Time → Stored D → Staged D → Result (Staged D)
  stage_row history now row staged = do
    calendar ← validate_row now row
    cutoffs ← stage_cutoff history now calendar (candle_scope (series_of row)) staged.cutoffs
    let rows = rows_at (get Series-discrete (series_of row) staged.pending)
    guard (not (is_some (get ℕ_discrete row.candle.open_time rows))) invalid_upstream_data
    ok (record {
      pending =
          put Series-discrete (series_of row)
            (put ℕ_discrete row.candle.open_time (stored_candle row) rows) staged.pending;
      cutoffs = cutoffs;
    })

  -- The loop over the batch; n counts the checks of the context.
  unfoldable pub stage : Context → ℕ → ℕ → Time → List (Stored D) → Staged D → Result (Staged D)
  stage ctx n history now [] staged = ok staged
  stage ctx n history now (row ∷ rows) staged = do
    check ctx n
    staged' ← stage_row history now row staged
    stage ctx (suc n) history now rows staged'

  -- `exists && !replacesCandle(stored, row)`.
  abbrev pub keeps : StoredCandle D → Option (StoredCandle D) → Bool
  keeps row none = false
  keeps row (some stored) = not (replaces_candle stored row)

  unfoldable pub merge_row : Time → Series → Time → StoredCandle D → Table D → Table D
  merge_row cutoff s start row m =
      let rows = rows_at (get Series-discrete s m) in
      if before start cutoff || keeps row (get ℕ_discrete start rows)
      then m
      else put Series-discrete s (put ℕ_discrete start row rows) m

  unfoldable pub merge_rows : Time → Series → Rows D → Table D → Table D
  merge_rows cutoff s [] m = m
  merge_rows cutoff s ((start, row) ∷ rows) m =
      merge_rows cutoff s rows (merge_row cutoff s start row m)

  -- The write: every series of the batch is pruned to its cutoff, then merged.
  unfoldable pub commit : Map CandleScope Time → Table D → Table D → Table D
  commit cutoffs [] m = m
  commit cutoffs ((s, incoming) ∷ rest) m =
      let cutoff = time_at (get CandleScope-discrete (candle_scope s) cutoffs) in
      commit cutoffs rest (merge_rows cutoff s incoming (prune s cutoff m))

  abbrev pub apply : Staged D → Repository D → Repository D
  apply staged r =
      let cutoffs = raise_cutoffs staged.cutoffs r.cutoffs in
      record r { series = commit cutoffs staged.pending r.series; cutoffs = cutoffs }

  abbrev pub finish : Result (Staged D) → Repository D → Repository D × Result (Unit {0})
  finish (ok staged) r = (apply staged r, ok tt)
  finish (err e) r = (r, err e)

  abbrev pub nothing_staged : Staged D
  nothing_staged = record { pending = []; cutoffs = [] }

  -- Everything before the write lock is taken, and the check after it.
  unfoldable pub stage_batch : Context → ℕ → Time → List (Stored D) → Result (Staged D)
  stage_batch ctx history now rows = do
    check ctx 0
    staged ← stage ctx 1 history now rows nothing_staged
    check ctx (suc (length rows))
    ok staged

  unfoldable pub upsert_many :
      Context → Time → List (Stored D) → Repository D → Repository D × Result (Unit {0})
  upsert_many ctx now [] r = (r, check ctx 0)
  upsert_many ctx now (row ∷ rows) r = finish (stage_batch ctx r.history_candles now (row ∷ rows)) r
