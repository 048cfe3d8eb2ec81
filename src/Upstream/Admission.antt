-- ===== src/Upstream/Admission.antt =====
-- internal/infrastructure/exchange/upstream/controller.go: when a request may be sent, and the
-- lanes in which requests wait. The mutex makes each of these functions one step; the loop of
-- `acquire` gives it up while it waits, so one round of the loop is a step of its own (`admit`).
-- An `operationState` is found by its number, a `*waiter` is told apart by one.
pub mod Fits
pub mod Queue
pub mod Flight
pub mod Pruned
pub mod Slots
pub mod Steps
pub mod Flights
pub mod Balanced
pub mod Rounds
pub mod FlightBalanced
pub mod InFlight
pub mod Budget
pub mod FlightBudget
pub mod Budgets
use market_data.Prelude.{
  ℕ, zero, suc, ◌+◌, ◌-◌, ◌%◌, Bool, true, false, not, ◌&&◌, ◌||◌, ltb, leb, ◌==◌, if◌then◌else◌,
  Option, none, some, List, [], ◌∷◌, ◌++◌, length, ite, ℕ_discrete,
}
use market_data.Prelude.Map.{Map, get, put}
use market_data.Errors.{
  Error, Result, ok, err, service_overloaded, upstream_unavailable, upstream_attempt_limit,
  unsupported_operation,
}
use market_data.Domain.Market.{Text}
use market_data.Domain.Time.{Time, before, after, is_zero, zero_time}
use market_data.Application.Context.{Context}
use market_data.Upstream.{
  UpstreamScope, binance_spot, binance_linear, bybit, Operation, PerOperation, at, Window, Cost,
  Entry, ScopeState, percent, window_cost, max_time,
}
use market_data.Upstream.Usage.{prune, usage, budget_ready}

abbrev pub same_scope : UpstreamScope → UpstreamScope → Bool
same_scope binance_spot binance_spot = true
same_scope binance_linear binance_linear = true
same_scope bybit bybit = true
same_scope _ _ = false

pub data Reason : Type 0 where
  operation_share common_threshold : Reason

-- A `*budgetDeferral`, which unwraps to `ErrServiceOverloaded`. A zero time is unknown.
pub record Deferral : Type 0 where
  pub cost : Cost
  pub reason : Reason
  pub next : Time

pub data Readiness : Type 0 where
  ready_at : Time → Readiness
  deferred : Deferral → Readiness
  refused : Error → Readiness

-- The deferrals of two windows together.
abbrev pub defer : Cost → Reason → Time → Option Deferral → Deferral
defer c reason next none = record { cost = c; reason = reason; next = next }
defer c reason next (some d) = record d {
  next = if is_zero d.next || is_zero next then zero_time else max_time d.next next;
}

abbrev conclude : Time → Option Deferral → Readiness
conclude ready none = ready_at ready
conclude ready (some d) =
    deferred (if is_zero d.next then d else record d { next = max_time d.next ready })

-- Does the window have room for the request, as far as `continue` goes?
abbrev pub has_room : ScopeState → Window → Cost → Time → Bool
has_room s w c now =
    let amount = window_cost w c in
    let view = usage s w now in
    leb (view.common + amount) w.limit
    && (not w.split
        || leb (at view.operations c.operation + amount)
            (percent w.limit (at s.shares c.operation)))

-- The two tests of a scope whose attempts in flight stay counted.
abbrev pub over_common : ScopeState → Window → Time → Bool
over_common s w now = ltb w.limit (usage s w now).common

abbrev pub over_share : ScopeState → Window → Cost → Time → Bool
over_share s w c now =
    w.split
    && ltb (percent w.limit (at s.shares c.operation))
        (at (usage s w now).operations c.operation + window_cost w c)

-- The cost of the request is above what the window can ever admit.
abbrev pub too_large : ScopeState → Window → Cost → Bool
too_large s w c =
    ltb w.limit (window_cost w c)
    || w.split && ltb (percent w.limit (at s.shares c.operation)) (window_cost w c)

-- When a window that has no room may have some.
abbrev pub retry_at : Time → Time → Time → Time
retry_at expires next ready = max_time ready (if is_zero next then expires else next)

-- The loop over the windows.
unfoldable pub check_windows :
    ScopeState → Cost → Time → Time → Map Text Window → Time → Option Deferral → Readiness
check_windows s c expires now [] ready blocked = conclude ready blocked
check_windows s c expires now ((name, w) ∷ ws) ready blocked =
    let passes = window_cost w c == 0 || has_room s w c now in
    let waits = not (over_common s w now) && not (over_share s w c now) in
    let reason = if over_common s w now then common_threshold else operation_share in
    let rest =
      check_windows s c expires now ws
        (if passes || s.keep_inflight then ready else retry_at expires (usage s w now).next ready)
        (if passes || not s.keep_inflight || waits
          then blocked
          else some (defer c reason (budget_ready s w c now) blocked)) in
    if not (window_cost w c == 0) && too_large s w c then refused upstream_unavailable else rest

-- `ready` prunes the scope before it reads it.
unfoldable pub ready : ScopeState → Cost → Time → Time → Time → ScopeState × Readiness
unfolding check_windows
ready s c expires not_before now =
    let s' = prune now s in
    (
      s',
      check_windows s' c expires now s'.windows
          (max_time (max_time (max_time zero_time s.next) s.cooldown) not_before) none,
    )

-- `reservation`, appended to the history of the scope.
unfoldable pub reserve : ℕ → Cost → Time → ScopeState → ScopeState
reserve ticket c now s = record s {
  history =
      s.history
      ++ record {
        ticket = ticket;
        at = now;
        cost = c;
        received = zero_time;
        dispatched = false;
        inflight = true;
        observations = [];
      }
        ∷ [];
  next = now + s.spacing;
}

pub record Waiter : Type 0 where
  pub number : ℕ
  pub scope : UpstreamScope
  pub cost : Cost
  pub operation : ℕ
  pub expires : Time
  pub not_before : Time

pub record Lane : Type 0 where
  pub slots : ℕ
  pub capacity : ℕ
  pub active : ℕ
  pub queue : List Waiter

-- `attempts` and `maximum` of an operation.
pub record Attempts : Type 0 where
  pub attempts : ℕ
  pub maximum : ℕ

pub record Controller : Type 0 where
  pub scopes : UpstreamScope → Option ScopeState
  pub lanes : ℕ → Lane
  pub next_lane : ℕ
  pub active : ℕ
  pub queued : ℕ
  pub operations : ℕ → Attempts
  pub max_inflight : ℕ
  pub max_waiters : ℕ
  pub admission_timeout : ℕ
  pub cycle_attempts : PerOperation ℕ
  pub tickets : ℕ

abbrev pub lane_count : ℕ
lane_count = 8

abbrev operation_index : Operation → ℕ
operation_index Operation.tickers = 0
operation_index Operation.klines = 1
operation_index Operation.instruments = 2
operation_index Operation.market_stats = 3

abbrev pub lane_index : UpstreamScope → Operation → ℕ
lane_index bybit op = 4 + operation_index op
lane_index _ op = operation_index op

-- `c.lanes[i] = l`.
abbrev pub set_lane : ℕ → Lane → (ℕ → Lane) → ℕ → Lane
set_lane i l lanes j = if i == j then l else lanes j

-- `c.scopes[k] = s`.
abbrev pub set_scope :
    UpstreamScope
    → ScopeState
    → (UpstreamScope → Option ScopeState)
    → UpstreamScope
    → Option ScopeState
set_scope k s scopes j = if same_scope k j then some s else scopes j
