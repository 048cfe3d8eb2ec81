-- ===== src/Config/Validate.antt =====
-- internal/config/validate.go: the checks of the shares and cooldowns, the exchanges, the capacity
-- and the kline pages. A check returns its error, or nothing; the texts of the errors are the
-- constructors of `Problem`, without the names of exchanges and windows in them.
use market_data.Prelude.{
  ℕ, ◌+◌, ◌-◌, ◌*◌, ◌/◌, Bool, true, false, not, ◌&&◌, ◌||◌, ltb, ◌==◌, if◌then◌else◌, Option, none,
  some, List, [], ◌∷◌, length,
}
use market_data.Prelude.Text.{bytes, same_text, contains}
use market_data.Domain.Market.{Text}
use market_data.Config.{
  Config, Markets, Lane, minute, hour, bybit_kline_maximum, binance_spot_kline_maximum,
  binance_linear_kline_maximum,
}

pub data Problem : Type 0 where
  must_be_positive driver_not_memory invalid_host invalid_port overlapping_addresses : Problem
  byte_limits_overflow grpc_byte_limits history_overflow shutdown_timeout : Problem
  market_stats_windows retry_backoff : Problem
  stop_threshold safety_margin operation_shares shares_total cooldown_minimum : Problem
  no_exchange no_market invalid_market page_limit too_many_pages : Problem
  caps_below_lanes caps_below_statistics fill_caps : Problem
  sample_rate no_environment invalid_dsn invalid_metrics_path : Problem
  invalid_windows fixed_window cannot_admit_funding cannot_admit_operation statistics_interval :
      Problem

-- `if failed { return problem }`.
abbrev pub fail_if : Bool → Problem → Option Problem
fail_if true p = some p
fail_if false p = none

-- The first error of two checks.
infixr 20 ◌then◌
abbrev pub ◌then◌ : Option Problem → Option Problem → Option Problem
some p then check = some p
none then check = check

-- The loop over the shares.
unfoldable pub check_shares : List ℕ → ℕ → Option Problem
check_shares [] remaining = fail_if (not (remaining == 0)) shares_total
check_shares (share ∷ shares) remaining =
    fail_if (ltb share 1 || ltb remaining share) operation_shares
    then check_shares shares (remaining - share)

unfoldable pub validate_shares_and_cooldowns : Config → Option Problem
unfolding check_shares
validate_shares_and_cooldowns c =
    let shares = c.upstream.operation_share_percent in
    let cooldown = c.upstream.cooldown in
    fail_if
      (ltb c.upstream.binance.stop_threshold_percent 1
        || ltb 99 c.upstream.binance.stop_threshold_percent)
      stop_threshold
    then fail_if (ltb 99 c.upstream.safety_margin_percent) safety_margin
    then check_shares
        (shares.tickers ∷ shares.klines ∷ shares.instruments ∷ shares.market_stats ∷ []) 100
    then fail_if
        (ltb cooldown.binance_429 minute
          || ltb cooldown.binance_418 (72 * hour)
          || ltb cooldown.bybit_429 minute
          || ltb cooldown.bybit_10006 minute
          || ltb cooldown.bybit_403_access_too_frequent (10 * minute))
        cooldown_minimum

-- The loop over the markets of an exchange that looks for unknown and repeated ones.
unfoldable pub check_markets : List Text → List Text → Option Problem
check_markets seen [] = none
check_markets seen (market ∷ markets) =
    fail_if
      (not (same_text market (bytes "spot") || same_text market (bytes "linear"))
        || contains seen market)
      invalid_market
    then check_markets (market ∷ seen) markets

-- How many pages a history takes. The page size is positive.
abbrev pub pages_of : ℕ → ℕ → ℕ
pages_of history page_size = (history - 1) / page_size + 1

-- The loop over the markets that counts pages.
unfoldable pub check_pages : ℕ → ℕ → Bool → Markets ℕ → List Text → Option Problem
check_pages history attempts enabled pages [] = none
check_pages history attempts enabled pages (market ∷ markets) =
    fail_if
      (enabled
        && ltb attempts (
            pages_of history
              (if same_text market (bytes "linear") then pages.linear else pages.spot)))
      too_many_pages
    then check_pages history attempts enabled pages markets

-- The loop's body for one exchange.
unfoldable pub check_exchange : Config → Bool → List Text → Markets ℕ → Markets ℕ → Option Problem
unfolding check_markets check_pages
check_exchange c enabled markets pages maxima =
    fail_if (enabled && length markets == 0) no_market
    then check_markets [] markets
    then fail_if (ltb maxima.spot pages.spot || ltb maxima.linear pages.linear) page_limit
    then check_pages c.klines.max_history_candles c.upstream.lanes_per_exchange.klines.max_attempts
        enabled pages markets

unfoldable pub validate_exchanges : Config → Option Problem
unfolding check_exchange
validate_exchanges c =
    let bybit = c.exchanges.bybit in
    let binance = c.exchanges.binance in
    fail_if (not bybit.enabled && not binance.enabled) no_exchange
    then check_exchange c bybit.enabled bybit.markets bybit.klines.max_candles_per_request
        (record { spot = bybit_kline_maximum; linear = bybit_kline_maximum })
    then check_exchange c binance.enabled binance.markets binance.klines.max_candles_per_request
        (record { spot = binance_spot_kline_maximum; linear = binance_linear_kline_maximum })

-- What the caps leave after the lanes of an exchange: slots and waiters.
pub data Caps : Type 0 where
  left : ℕ → ℕ → Caps
  exceeded : Caps

unfoldable pub take_lanes : List Lane → Caps → Caps
take_lanes [] caps = caps
take_lanes (lane ∷ lanes) exceeded = exceeded
take_lanes (lane ∷ lanes) (left slots waiters) = take_lanes lanes (
    if ltb slots lane.http_slots || ltb waiters lane.waiters
    then exceeded
    else left (slots - lane.http_slots) (waiters - lane.waiters))

abbrev pub exchange_lanes : Config → List Lane
exchange_lanes c =
    let lanes = c.upstream.lanes_per_exchange in
    record {
      http_slots = lanes.tickers.http_slots;
      waiters = lanes.tickers.waiters;
      max_attempts = 0;
    }
    ∷ record {
      http_slots = lanes.instruments.http_slots;
      waiters = lanes.instruments.waiters;
      max_attempts = 0;
    }
    ∷ lanes.klines
    ∷ []

abbrev pub take_exchange : Config → Bool → Caps → Caps
take_exchange c true caps = take_lanes (exchange_lanes c) caps
take_exchange c false caps = caps

abbrev pub check_statistics : Config → Caps → Option Problem
check_statistics c exceeded = some caps_below_lanes
check_statistics c (left slots waiters) =
    let lane = c.upstream.lanes_per_exchange.market_stats in
    fail_if (c.exchanges.binance.enabled && (ltb slots lane.http_slots || ltb waiters lane.waiters))
      caps_below_statistics

unfoldable pub validate_capacity : Config → Option Problem
unfolding take_lanes
validate_capacity c =
    check_statistics c (
      take_exchange c c.exchanges.binance.enabled (
        take_exchange c c.exchanges.bybit.enabled
          (left c.upstream.max_http_inflight c.upstream.max_admission_waiters)))
    then fail_if
        (ltb c.klines.max_active_fills c.klines.max_active_fills_per_exchange
          || ltb c.upstream.lanes_per_exchange.klines.http_slots
              c.klines.max_active_fills_per_exchange)
        fill_caps
