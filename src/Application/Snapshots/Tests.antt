-- ===== src/Application/Snapshots/Tests.antt =====
-- Refreshes of internal/application/ticker/service.go and the filters of the readers, at concrete
-- inputs.
use market_data.Prelude.{ℕ, ◌+◌, ◌*◌, ◌≡◌, refl, true, false, Option, none, some, [], ◌∷◌, ◌⊎◌}
use market_data.Prelude.Text.{bytes}
use market_data.Errors.{
  Error, err, upstream, invalid_upstream_data, unsupported_window, invalid_status,
}
use market_data.Domain.Names.{valid_exchange, valid_market}
use market_data.Domain.Snapshot.{InstrumentStatus}
use market_data.Domain.Time.{Time, unix_epoch, second}
use market_data.Application.Context.{background}
use market_data.Application.Snapshot.{SnapshotQuery, select_snapshot}
use market_data.Storage.Snapshots.Kinds.{ticker_shape, stats_shape}
use market_data.Storage.Snapshots.Tests.{binance_spot, batch}
use market_data.Application.Snapshots.{
  one_day, Collection, Snapshots, refresh_tickers, finish_refresh, joined_errors,
}
use market_data.Application.Snapshots.Readers.{stats_filter, instrument_filter, valid_status}
use market_data.Application.Snapshots.Published.{Outcome, refresh_tickers-Outcome}

abbrev now : Time
now = (unix_epoch + 60) * second

-- Tickers that arrived, with statistics that could not be read.
abbrev half : Collection ℕ
half = record {
  fetched_at = now;
  tickers = batch;
  ticker_error = none;
  has_market_stats = true;
  market_stats = [];
  market_stats_error = some invalid_upstream_data;
}

abbrev nothing : Snapshots ℕ
nothing = record { tickers = []; stats = []; instruments = []; events = []; instrument_events = [] }

-- The provider failed, so neither branch is written.
provider_failed :
    (refresh_tickers
      (λ e. false)
      background
      background
      binance_spot
      false
      (some upstream)
      half
      nothing).1
    ≡ some upstream
unfolding refresh_tickers finish_refresh
provider_failed = refl

refresh_tickers-Outcome_example :
    let r =
      refresh_tickers (λ e. false) background background binance_spot true none half nothing in
    (ticker_failure : Option Error) × Outcome
      (ticker_shape ℕ)
      background
      binance_spot
      batch
      none
      []
      (r.0.tickers, ticker_failure)
    × (((true ≡ false) × (r.0.stats ≡ []) × (r.1 ≡ ticker_failure))
        ⊎ ((stats_failure : Option Error) × (true ≡ true)
            × Outcome
                (stats_shape ℕ)
                background
                (record { scope = binance_spot; window = one_day })
                []
                (some invalid_upstream_data)
                []
                (r.0.stats, stats_failure)
            × (r.1 ≡ joined_errors ticker_failure stats_failure)))
refresh_tickers-Outcome_example =
    refresh_tickers-Outcome (λ e. false) background background binance_spot true none half nothing

abbrev all_of : SnapshotQuery
all_of = record { exchange = none; market = none; symbol = [] }

no_hour : stats_filter (binance_spot ∷ []) all_of (bytes "1h") ≡ err unsupported_window
unfolding stats_filter select_snapshot valid_exchange valid_market
no_hour = refl

no_status :
    instrument_filter (binance_spot ∷ []) all_of (some (InstrumentStatus.other 1))
    ≡ err invalid_status
unfolding instrument_filter select_snapshot valid_exchange valid_market valid_status
no_status = refl
