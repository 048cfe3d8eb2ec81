-- ===== src/Config/Budgets.antt =====
-- `allowances` and `validateBudgets` of internal/config/validate.go.
use market_data.Prelude.{
  ℕ, ◌+◌, ◌-◌, ◌*◌, ◌/◌, ◌%◌, min, Bool, true, false, not, ◌&&◌, ◌||◌, ltb, leb, ◌==◌,
  if◌then◌else◌, Option, none, some, [], ◌∷◌, length,
}
use market_data.Prelude.Map.{Map, get}
use market_data.Prelude.Text.{bytes, same_text, contains, Text-discrete}
use market_data.Domain.Market.{Text}
use market_data.Config.{Config, Operations, Window, Scope}
use market_data.Config.Defaults.{default_limits}
use market_data.Config.Validate.{
  Problem, fail_if, ◌then◌, invalid_windows, fixed_window, cannot_admit_funding,
  cannot_admit_operation, statistics_interval,
}

unfoldable pub percentage : ℕ → ℕ → ℕ
percentage value percent = value / 100 * percent + value % 100 * percent / 100

-- The shares, where tickers take over the share of the statistics.
abbrev pub shared : Bool → Operations ℕ → Operations ℕ
shared true s = record s { tickers = s.tickers + s.market_stats; market_stats = 0 }
shared false s = s

unfoldable pub allowances : Config → Window → Bool → ℕ × Operations ℕ
unfolding percentage
allowances c window shared_statistics =
    let threshold =
      if shared_statistics
      then 100 - c.upstream.safety_margin_percent
      else c.upstream.binance.stop_threshold_percent in
    let common = percentage window.limit threshold in
    let s = shared shared_statistics c.upstream.operation_share_percent in
    (
      common,
      if not window.split_operations
          then record { tickers = 0; klines = 0; instruments = common; market_stats = 0 }
          else record {
            tickers = percentage common s.tickers;
            klines = percentage common s.klines;
            instruments = percentage common s.instruments;
            market_stats = percentage common s.market_stats;
          },
    )

unfoldable pub linear_kline_cost : ℕ → ℕ
linear_kline_cost limit =
    if ltb limit 100 then 1 else if ltb limit 500 then 2 else if leb limit 1000 then 5 else 10

-- A row of the table of `validateBudgets`.
pub record BudgetScope : Type 0 where
  pub actual : Scope
  pub fixed : Scope
  pub enabled : Bool
  pub statistics_shared : Bool
  pub costs : Operations ℕ

unfoldable pub window_costs : BudgetScope → Text → Window → Operations ℕ
window_costs scope id w =
    if same_text w.measure (bytes "requests")
    then record {
      tickers = if same_text id (bytes "raw_requests_5m") then 2 else 1;
      klines = 1;
      instruments = 1;
      market_stats = if scope.statistics_shared then 0 else 1;
    }
    else scope.costs

-- The statistics refresh often enough. Costs and intervals are positive there.
abbrev pub enough_cycles : Config → Window → ℕ → ℕ → Bool
enough_cycles c w allowance cost =
    leb ((w.window - 1) / c.exchanges.binance.market_stats.refresh_interval + 1) (allowance / cost)

unfoldable pub check_budget : Config → BudgetScope → Text → Window → Option Problem
unfolding allowances window_costs
check_budget c scope id w =
    let (common, allocation) = allowances c w scope.statistics_shared in
    let cost = window_costs scope id w in
    if not w.split_operations
    then fail_if (ltb common 1) cannot_admit_funding
    else fail_if
        (ltb allocation.tickers cost.tickers
          || ltb allocation.klines cost.klines
          || ltb allocation.instruments cost.instruments
          || ltb allocation.market_stats cost.market_stats)
        cannot_admit_operation
      then fail_if
          (not scope.statistics_shared
            && not (enough_cycles c w allocation.market_stats cost.market_stats))
          statistics_interval

abbrev pub same_window : Window → Window → Bool
same_window w d =
    same_text w.measure d.measure
    && w.window == d.window
    && (w.split_operations && d.split_operations
        || not w.split_operations && not d.split_operations)

-- One window of the settings against the default one.
unfoldable pub check_window : Config → BudgetScope → Text → Window → Option Window → Option Problem
unfolding check_budget
check_window c scope id w none = some fixed_window
check_window c scope id w (some d) =
    fail_if (not (same_window w d)) fixed_window
    then (if not scope.enabled
        then none
        else check_budget c scope id
            (record w { limit = if scope.statistics_shared then w.limit else min w.limit d.limit }))

unfoldable pub check_each : Config → BudgetScope → Map Text Window → Option Problem
unfolding check_window
check_each c scope [] = none
check_each c scope ((id, w) ∷ ws) =
    check_window c scope id w (get Text-discrete id scope.fixed.windows) then check_each c scope ws

abbrev pub check_scope : Config → BudgetScope → Option Problem
check_scope c scope =
    fail_if (not (length scope.actual.windows == length scope.fixed.windows)) invalid_windows
    then check_each c scope scope.actual.windows

abbrev pub scope_enabled : Config → Text → Bool
scope_enabled c market = c.exchanges.binance.enabled && contains c.exchanges.binance.markets market

-- The table of `validateBudgets`, row by row.
abbrev pub spot_budget : Config → BudgetScope
spot_budget c = record {
  actual = c.upstream.limits.binance_spot;
  fixed = default_limits.binance_spot;
  enabled = scope_enabled c (bytes "spot");
  statistics_shared = false;
  costs = record { tickers = 8; klines = 2; instruments = 20; market_stats = 80 };
}

abbrev pub linear_budget : Config → BudgetScope
linear_budget c = record {
  actual = c.upstream.limits.binance_linear;
  fixed = default_limits.binance_linear;
  enabled = scope_enabled c (bytes "linear");
  statistics_shared = false;
  costs = record {
    tickers = 17;
    klines = linear_kline_cost c.exchanges.binance.klines.max_candles_per_request.linear;
    instruments = 1;
    market_stats = 40;
  };
}

abbrev pub bybit_budget : Config → BudgetScope
bybit_budget c = record {
  actual = c.upstream.limits.bybit;
  fixed = default_limits.bybit;
  enabled = c.exchanges.bybit.enabled;
  statistics_shared = true;
  costs = record { tickers = 1; klines = 1; instruments = 1; market_stats = 0 };
}

unfoldable pub validate_budgets : Config → Option Problem
unfolding check_each linear_kline_cost
validate_budgets c =
    check_scope c (spot_budget c)
    then check_scope c (linear_budget c)
    then check_scope c (bybit_budget c)
