-- ===== src/Upstream/Bootstrap.antt =====
-- `New`, `addScope` and `feasible` of internal/infrastructure/exchange/upstream: the controller
-- that a configuration gives. The clock is there, as its type says. A waiting operation is found
-- by its number; none has begun.
pub mod Started
use market_data.Prelude.{
  ℕ, ◌+◌, ◌-◌, ◌%◌, min, Bool, true, false, not, ◌&&◌, ◌||◌, ltb, leb, ◌==◌, if◌then◌else◌, Option,
  none, some, List, [], ◌∷◌,
}
use market_data.Prelude.Map.{Map, get}
use market_data.Prelude.Text.{bytes, same_text, contains, Text-discrete}
use market_data.Domain.Market.{Text}
use market_data.Domain.Time.{Time, zero_time}
use market_data.Config as config
use market_data.Config.{Config}
use market_data.Config.Defaults.{default_limits}
use market_data.Upstream.{
  UpstreamScope, binance_spot, binance_linear, bybit, Operation, PerOperation, at, Measure,
  bootstrap, Window, Cost, ScopeState, percent,
}
use market_data.Upstream.Admission.{Lane, Attempts, Controller}

abbrev pub is_bybit : UpstreamScope → Bool
is_bybit bybit = true
is_bybit _ = false

-- `config.Defaults().Upstream.Limits` of the scope.
abbrev pub bootstrap_limits : UpstreamScope → config.Scope
bootstrap_limits binance_spot = default_limits.binance_spot
bootstrap_limits binance_linear = default_limits.binance_linear
bootstrap_limits bybit = default_limits.bybit

-- The code tells a unit only by `== "weight"`.
abbrev pub measure_of : Text → Measure
measure_of u = if same_text u (bytes "weight") then Measure.weight else Measure.requests

-- The limit of a window, 0 where the key is missing.
abbrev pub limit_of : Option config.Window → ℕ
limit_of none = 0
limit_of (some w) = w.limit

-- One window of `addScope`.
unfoldable pub add_window : Config → UpstreamScope → Text → config.Window → Window
unfolding percent
add_window c id key w =
    let ceiling = limit_of (get Text-discrete key (bootstrap_limits id).windows) in
    let threshold =
      if is_bybit id
      then 100 - c.upstream.safety_margin_percent
      else c.upstream.binance.stop_threshold_percent in
    let user_cap =
      if is_bybit id || w.explicit_limit || not (w.limit == ceiling) then w.limit else 0 in
    let effective = if ltb 0 user_cap then min ceiling user_cap else ceiling in
    record {
      measure = measure_of w.measure;
      duration = w.window;
      ceiling = ceiling;
      user_cap = user_cap;
      source = bootstrap;
      updated_at = zero_time;
      limit = percent effective threshold;
      split = w.split_operations;
      funding = same_text key (bytes "funding_requests_5m");
    }

unfoldable pub add_windows : Config → UpstreamScope → Map Text config.Window → Map Text Window
unfolding add_window
add_windows c id [] = []
add_windows c id ((key, w) ∷ ws) = (key, add_window c id key w) ∷ add_windows c id ws

abbrev pub scope_shares : Config → UpstreamScope → PerOperation ℕ
scope_shares c id =
    let shares = c.upstream.operation_share_percent in
    record {
      tickers = if is_bybit id then shares.tickers + shares.market_stats else shares.tickers;
      klines = shares.klines;
      instruments = shares.instruments;
      market_stats = if is_bybit id then 0 else shares.market_stats;
    }

unfoldable pub add_scope :
    Config → UpstreamScope → config.Scope → PerOperation ℕ → Time → ScopeState
unfolding add_windows
add_scope c id cfg costs now = record {
  windows = add_windows c id cfg.windows;
  keep_inflight = not (is_bybit id);
  history = [];
  history_since = now;
  spacing = cfg.min_request_spacing;
  next = zero_time;
  cooldown = zero_time;
  shares = scope_shares c id;
  max_costs = costs;
}

abbrev pub amount_of : Measure → ℕ → ℕ
amount_of Measure.weight n = n
amount_of Measure.requests n = 1

-- The loop's body of `feasible` for one operation.
abbrev pub operation_fits : ScopeState → Window → Operation → Bool
operation_fits s w op =
    let amount = amount_of w.measure (at s.max_costs op) in
    let share = at s.shares op in
    share == 0 || not (ltb w.limit amount || w.split && ltb (percent w.limit share) amount)

unfoldable pub feasible : ScopeState → Window → Bool
unfolding percent
feasible s w =
    if w.funding
    then leb 1 w.limit
    else operation_fits s w Operation.tickers
      && operation_fits s w Operation.klines
      && operation_fits s w Operation.instruments
      && operation_fits s w Operation.market_stats

abbrev pub all_feasible : ScopeState → Map Text Window → Bool
all_feasible s [] = true
all_feasible s ((name, w) ∷ ws) = feasible s w && all_feasible s ws

unfoldable pub linear_weight : ℕ → ℕ
linear_weight maximum =
    if ltb maximum 100 then 1 else if ltb maximum 500 then 2 else if leb maximum 1000 then 5 else 10

-- The greatest weights of the requests of a scope, by the maximal page of candles.
abbrev pub scope_costs : UpstreamScope → ℕ → PerOperation ℕ
scope_costs binance_spot maximum = record {
  tickers = 4;
  klines = 2;
  instruments = 20;
  market_stats = 80;
}
scope_costs binance_linear maximum = record {
  tickers = 10;
  klines = linear_weight maximum;
  instruments = 1;
  market_stats = 40;
}
scope_costs bybit maximum = record { tickers = 0; klines = 0; instruments = 0; market_stats = 0 }

abbrev pub linear_page : Config → ℕ
linear_page c = c.exchanges.binance.klines.max_candles_per_request.linear

abbrev pub spot_scope : Config → Time → ScopeState
spot_scope c now =
    add_scope c binance_spot c.upstream.limits.binance_spot
      (scope_costs binance_spot (linear_page c)) now

abbrev pub linear_scope : Config → Time → ScopeState
linear_scope c now =
    add_scope c binance_linear c.upstream.limits.binance_linear
      (scope_costs binance_linear (linear_page c)) now

abbrev pub bybit_scope : Config → Time → ScopeState
bybit_scope c now =
    add_scope c bybit c.upstream.limits.bybit (scope_costs bybit (linear_page c)) now

-- The scopes that the settings enable.
abbrev pub new_scopes : Config → Time → UpstreamScope → Option ScopeState
new_scopes c now binance_spot =
    if c.exchanges.binance.enabled && contains c.exchanges.binance.markets (bytes "spot")
    then some (spot_scope c now)
    else none
new_scopes c now binance_linear =
    if c.exchanges.binance.enabled && contains c.exchanges.binance.markets (bytes "linear")
    then some (linear_scope c now)
    else none
new_scopes c now bybit = if c.exchanges.bybit.enabled then some (bybit_scope c now) else none

-- The lanes of an exchange: tickers, klines, instruments, statistics.
abbrev new_lane : Config → ℕ → Lane
new_lane c i =
    let l = c.upstream.lanes_per_exchange in
    if i == 0
    then record {
      slots = l.tickers.http_slots;
      capacity = l.tickers.waiters;
      active = 0;
      queue = [];
    }
    else if i == 1
    then record { slots = l.klines.http_slots; capacity = l.klines.waiters; active = 0; queue = [] }
    else if i == 2
    then record {
      slots = l.instruments.http_slots;
      capacity = l.instruments.waiters;
      active = 0;
      queue = [];
    }
    else record {
      slots = l.market_stats.http_slots;
      capacity = l.market_stats.waiters;
      active = 0;
      queue = [];
    }

abbrev scope_feasible : Option ScopeState → Bool
scope_feasible none = true
scope_feasible (some s) = all_feasible s s.windows

-- What `New` makes of settings that `Validate` accepts, before it checks that their windows are
-- feasible.
unfoldable pub new_controller : Config → Time → Controller
unfolding add_scope linear_weight
new_controller c now = record {
  scopes = new_scopes c now;
  lanes = λ i. new_lane c (i % 4);
  next_lane = 0;
  active = 0;
  queued = 0;
  operations = λ n. record { attempts = 0; maximum = 0 };
  max_inflight = c.upstream.max_http_inflight;
  max_waiters = c.upstream.max_admission_waiters;
  admission_timeout = c.upstream.admission_timeout;
  cycle_attempts =
      let l = c.upstream.lanes_per_exchange in
      record {
        tickers = l.tickers.max_attempts;
        klines = l.klines.max_attempts;
        instruments = l.instruments.max_attempts;
        market_stats = l.market_stats.max_attempts;
      };
  tickets = 0;
}

-- The check that ends `New`.
unfoldable pub bootstrap_feasible : Controller → Bool
unfolding feasible
bootstrap_feasible c =
    scope_feasible (c.scopes binance_spot)
    && scope_feasible (c.scopes binance_linear)
    && scope_feasible (c.scopes bybit)
