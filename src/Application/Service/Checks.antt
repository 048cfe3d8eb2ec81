-- ===== src/Application/Service/Checks.antt =====
-- internal/application/kline/service.go: `NewService`, `ValidateSeries`, `Validate` and the start
-- of `Get`.
use market_data.Prelude.{
  ℕ, Bool, true, false, not, ◌||◌, leb, Option, none, some, List, [], ◌∷◌, ite, is_some,
}
use market_data.Prelude.Map.{Map, get, put}
use market_data.Errors.{
  Result, err, ok, ◌>>=◌, ◌>>◌, guard, invalid_parameter, invalid_filter, invalid_interval,
  symbol_not_found,
}
use market_data.Domain.Names.{Exchange, Market, Timeframe, Exchange-discrete}
use market_data.Domain.Time.{Time}
use market_data.Application.Series.{Scope, Series, Query, Scope-discrete}
use market_data.Application.Snapshot.{select_snapshot}
use market_data.Application.Planner.{Planner, new_planner, contains, is_empty, validate}
use market_data.Application.Fills.{Settings}
use market_data.Application.Service.{forget, ◌then◌}

-- `Provider`, as far as `NewService` asks it.
pub record Provider : Type 0 where
  pub exchange : Exchange
  pub supported_timeframes : Market → Result (List Timeframe)

pub record ScopeSettings : Type 0 where
  pub scope : Scope
  pub provider : Option Provider
  pub page_limit : ℕ

abbrev is_of : Exchange → Exchange → Bool
is_of e e' = ite (Exchange-discrete e e') true false

abbrev provider_of : Option Provider → Exchange → Result Provider
provider_of none e = err invalid_parameter
provider_of (some provider) e = do guard (is_of provider.exchange e) invalid_parameter; ok provider

-- The loop over the scopes.
unfoldable pub add_scopes :
    Settings → List ScopeSettings → Map Scope Planner → Result (Map Scope Planner)
unfolding Exchange-discrete Scope-discrete new_planner
add_scopes settings [] planners = ok planners
add_scopes settings (x ∷ xs) planners = do
  provider ← provider_of x.provider x.scope.exchange
  guard (not (is_some (get Scope-discrete x.scope planners))) invalid_parameter
  supported ← provider.supported_timeframes x.scope.market
  planner ← new_planner x.scope supported settings.history_candles x.page_limit
  add_scopes settings xs (put Scope-discrete x.scope planner planners)

-- The scopes of a new service. A setting that is not positive is 0.
unfoldable pub new_scopes : Settings → List ScopeSettings → Result (Map Scope Planner)
unfolding add_scopes
new_scopes settings scopes = do
  guard
      (not (
        is_empty scopes
        || leb settings.max_callers 0
        || leb settings.max_active_fills 0
        || leb settings.max_active_fills_per_exchange 0
        || leb settings.max_attempts 0
        || leb settings.fill_timeout 0))
      invalid_parameter
  add_scopes settings scopes []

abbrev planner_of : Option Planner → Result Planner
planner_of none = err invalid_filter
planner_of (some planner) = ok planner

-- `ValidateSeries`, with the planner that it finds.
unfoldable pub validate_series : Map Scope Planner → Series → Result Planner
unfolding Scope-discrete select_snapshot contains
validate_series planners series = do
  planner ← planner_of (get Scope-discrete series.scope planners)
  guard (not (is_empty series.symbol)) invalid_filter
  selected ← select_snapshot (series.scope ∷ []) (record {
    exchange = some series.exchange;
    market = some series.market;
    symbol = series.symbol;
  })
  guard (contains planner.supported series.interval) invalid_interval
  ok planner

-- `Validate` at the time that the clock gives.
unfoldable pub validate_query : Map Scope Planner → Query → Time → Result (Unit {0})
unfolding validate_series validate
validate_query planners q now = do
  planner ← validate_series planners q.series
  forget (validate planner q now)

-- What the start of `Get` calls: the clock, the contexts, the slots of the callers, and the list
-- of the instruments with the query's scope and symbol.
pub record Entering (W : Type 0) : Type 0 where
  pub clock : W → Time × W
  pub alive : W → Result (Unit {0}) × W
  pub take_slot : W → Result (Unit {0}) × W
  pub free_slot : W → W
  pub known_instruments : Query → W → Result ℕ × W

-- A result that is returned with the slot given back.
abbrev pub freeing : {W A : Type 0} → Entering W → Result A × W → Result A × W
freeing entering (r, w) = (r, entering.free_slot w)

abbrev pub some_instrument : ℕ → Result (Unit {0})
some_instrument n = guard (not (leb n 0)) symbol_not_found

-- `Get` once it holds a slot.
abbrev pub holding : {W A : Type 0} → Entering W → (W → Result A × W) → Query → W → Result A × W
holding entering rounds q w =
    freeing entering
      (entering.known_instruments q w then λ n w1. (some_instrument n, w1) then λ _ w2. rounds w2)

-- `Get` around the loop `rounds`.
unfoldable pub get_klines :
    {W A : Type 0} → Entering W → Map Scope Planner → (W → Result A × W) → Query → W → Result A × W
unfolding validate_query
get_klines entering planners rounds q w =
    (validate_query planners q (entering.clock w).0, (entering.clock w).1) then λ _ w1.
    entering.alive w1 then λ _ w2. entering.take_slot w2 then λ _ w3. holding entering rounds q w3
