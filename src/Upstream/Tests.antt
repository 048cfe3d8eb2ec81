-- ===== src/Upstream/Tests.antt =====
-- Runs of the admission control, and the theorems about it at concrete inputs.
use market_data.Prelude.{
  ℕ, ◌+◌, ◌-◌, ◌*◌, length, get_elem?, ◌^◌, ◌≤◌, ◌≡◌, refl, arith, Bool, true, false, none, [], ◌∷◌,
  inl, min, ℕ_discrete, Option, some,
}
use market_data.Prelude.Map.{Map, get, keep}
use market_data.Prelude.Text.{bytes, Text-discrete}
use market_data.Domain.Time.{Time, zero_time, second}
use market_data.Config.Defaults.{defaults}
use market_data.Config.Validate.{validate_shares_and_cooldowns, check_shares}
use market_data.Config.Shares.{validate_shares-checked}
use market_data.Upstream.{
  binance_spot, binance_linear, Operation, at, Cost, Window, Entry, Observation, Measure, bootstrap,
  ScopeState, window_cost, max_int,
}
use market_data.Upstream.Expiry.{Crossing, budget_ready-Crossing}
use market_data.Upstream.Usage.{
  expiries, time_of, fits_at, budget_ready, usage, prune, prune_history, observed_usage,
  add_observation, add_entry,
}
use market_data.Upstream.Prune.{usage-prune}
use market_data.Upstream.Spent.{spent, usage-spent}
use market_data.Upstream.Admission.{Waiter, Controller, ready}
use market_data.Upstream.Admission.Queue.{Round, admitted, lane_of, begin, enter, turn}
use market_data.Upstream.Admission.Steps.{
  In, enters, begins_cycle, turns, Reach, begins, continues, Steady,
}
use market_data.Upstream.Admission.Balanced.{Balanced}
use market_data.Upstream.Admission.InFlight.{reach-Balanced}
use market_data.Upstream.Admission.Budgets.{AllBudgeted, reach-Budgeted}
use market_data.Prelude.Int.{ℤ, pos, negsuc}
use market_data.Config.{Retry}
use market_data.Errors.{ok}
use market_data.Domain.Market.{Text}
use market_data.Upstream.Price.{HttpRequest, Values, resolve_cost}
use market_data.Upstream.Priced.{InCosts, resolve_cost-InCosts}
use market_data.Upstream.Retry.{backoff, backoff-min}
use market_data.Upstream.Bootstrap.{new_controller}
use market_data.Upstream.Bootstrap.Started.{new-keeps, new-Balanced, new-Budgeted}

abbrev noon : Time
noon = zero_time + 63_000_000_000 * second

abbrev klines_cost : Cost
klines_cost = record { operation = Operation.klines; weight = 2; funding = false }

-- A request for candles: its cycle begins, it enters its lane, and its turn comes.
abbrev fresh : Controller
fresh = new_controller defaults noon

abbrev with_cycle : Controller
with_cycle = (begin binance_spot Operation.klines fresh).0

abbrev waiter : Waiter
waiter = record {
  number = 1;
  scope = binance_spot;
  cost = klines_cost;
  operation = 0;
  expires = noon + 10 * second;
  not_before = zero_time;
}

abbrev waiting_one : Controller
waiting_one = (enter none binance_spot klines_cost 0 zero_time noon noon with_cycle).0

abbrev all_alive : ℕ → Bool
all_alive n = false

abbrev sent : Controller × Round
sent = turn all_alive none none noon waiter waiting_one

sent_outcome : (sent.1 ≡ admitted 2) × (sent.0.active ≡ 1) × (sent.0.queued ≡ 0)
unfolding begin enter turn new_controller defaults ready prune window_cost get Text-discrete
    ℕ_discrete usage prune_history observed_usage
sent_outcome = (refl, refl, refl)

waiter-In : In waiter (waiting_one.lanes (lane_of waiter)).queue
unfolding begin enter turn new_controller defaults ready prune window_cost get Text-discrete
    ℕ_discrete usage prune_history observed_usage
waiter-In = inl refl

same_time : noon ≤ noon
same_time = omega arith

one_attempt : Reach fresh noon sent.0 noon
one_attempt =
    continues
      (continues (continues begins same_time (begins_cycle binance_spot Operation.klines)) same_time
        (enters none binance_spot klines_cost 0 zero_time noon))
      same_time (turns all_alive none none waiter waiter-In)

one_attempt-Steady : Steady one_attempt
unfolding one_attempt Steady
one_attempt-Steady = (((tt, tt), tt), tt)

shares_ok : validate_shares_and_cooldowns defaults ≡ none
unfolding validate_shares_and_cooldowns check_shares defaults
shares_ok = refl

new-keeps_example : Balanced sent.0 × AllBudgeted (noon + second) sent.0
new-keeps_example =
    new-keeps defaults noon (noon + second) shares_ok one_attempt one_attempt-Steady (omega arith)

reach-Balanced_example : Balanced sent.0
reach-Balanced_example = reach-Balanced fresh noon one_attempt (new-Balanced defaults noon)

reach-Budgeted_example : AllBudgeted (noon + second) sent.0
reach-Budgeted_example =
    reach-Budgeted fresh noon (noon + second) one_attempt one_attempt-Steady (omega arith)
      (new-Budgeted defaults noon (validate_shares-checked defaults shares_ok))

-- A scope with an old and a recent reservation.
abbrev minute_window : Window
minute_window = record {
  measure = Measure.weight;
  duration = 60 * second;
  ceiling = 6000;
  user_cap = 0;
  source = bootstrap;
  updated_at = zero_time;
  limit = 5400;
  split = true;
  funding = false;
}

abbrev reservation : ℕ → Time → Map ℕ Observation → Entry
reservation ticket at observations = record {
  ticket = ticket;
  at = at;
  cost = klines_cost;
  received = at;
  dispatched = true;
  inflight = false;
  observations = observations;
}

abbrev busy_scope : ScopeState
busy_scope = record {
  windows = (bytes "request_weight_1m", minute_window) ∷ [];
  keep_inflight = true;
  history =
      reservation 0 (noon - 90 * second) []
      ∷ reservation 1 (noon - 5 * second)
          ((60 * second, record { used = 40; expires = noon + 55 * second }) ∷ [])
      ∷ [];
  history_since = noon - 3600 * second;
  spacing = 0;
  next = zero_time;
  cooldown = zero_time;
  shares = record { tickers = 60; klines = 30; instruments = 5; market_stats = 5 };
  max_costs = record { tickers = 4; klines = 2; instruments = 20; market_stats = 80 };
}

usage-prune_example :
    usage (prune noon busy_scope) minute_window noon ≡ usage busy_scope minute_window noon
usage-prune_example =
    usage-prune busy_scope minute_window noon (omega arith) (omega arith) (tt, ((tt, tt), tt))

busy_usage : (usage busy_scope minute_window noon).common ≡ 40
unfolding usage window_cost get ℕ_discrete observed_usage add_observation add_entry
busy_usage = refl

pruned_history : length (prune noon busy_scope).history ≡ 1
unfolding prune prune_history keep
pruned_history = refl

usage-spent_example :
    at (usage busy_scope minute_window noon).operations Operation.klines
    ≡ min max_int (spent true minute_window noon Operation.klines busy_scope.history)
usage-spent_example = usage-spent busy_scope minute_window noon Operation.klines

-- A request that waits for the window to empty.
abbrev full_window : Window
full_window = record minute_window { limit = 41 }

budget_ready-Crossing_example :
    let ts = expiries full_window noon busy_scope.history in
    (k : ℕ) × (budget_ready busy_scope full_window klines_cost noon ≡ time_of (get_elem? ts k))
    × Crossing (fits_at busy_scope full_window klines_cost) ts (length ts) k
budget_ready-Crossing_example = budget_ready-Crossing busy_scope full_window klines_cost noon

abbrev retry : Retry
retry = record { max_attempts = 3; initial_backoff = 100; max_backoff = 2000 }

fifth_delay :
    (backoff retry 5 pos ≡ 1600) × (backoff retry 6 pos ≡ 2000) × (backoff retry 6 negsuc ≡ 0)
unfolding backoff
fifth_delay = (refl, refl, refl)

backoff-min_example :
    (backoff retry 6 (λ n. pos 7) ≤ min 2000 (100 * 2 ^ 5))
    × (backoff retry 6 pos ≡ min 2000 (100 * 2 ^ 5))
backoff-min_example = backoff-min retry 6 (λ n. pos 7)

-- A page of 500 candles.
abbrev page_values : Text → Option Values
page_values t = some ((bytes "limit", t ∷ []) ∷ [])

abbrev page_number : Text → Option ℤ
page_number t = some (pos 500)

abbrev page_request : HttpRequest
page_request = record {
  method = bytes "GET";
  has_body = false;
  path = bytes "/fapi/v1/klines";
  raw_query = bytes "500";
}

abbrev page_price : Cost
page_price = record { operation = Operation.klines; weight = 5; funding = false }

page_resolved :
    resolve_cost page_values page_number binance_linear page_request 1500 ≡ ok page_price
unfolding resolve_cost
page_resolved = refl

resolve_cost-InCosts_example : InCosts binance_linear 1500 page_price
resolve_cost-InCosts_example =
    resolve_cost-InCosts page_values page_number binance_linear page_request 1500 page_resolved
