-- ===== src/Application/Fills.antt =====
-- internal/application/kline/fill.go and the admission parts of
-- internal/application/kline/service.go: the fills that callers share. A pointer to a fill is its
-- number in the heap, a pointer to a `callerBudget` the number of the caller. A set of pointers
-- is its test. `failure` is the answer of `contextError`. Each function here is one critical
-- section of `Service.mu`, or one operation on the channel `callers`; `observed` holds the events
-- that `emit` has passed on, the newest first.
pub mod Steps
pub mod Places
pub mod Capacity
pub mod Callers
mod Tests
use market_data.Prelude.{
  ℕ, suc, ◌+◌, ◌-◌, ◌∷◌, [], List, Bool, true, false, not, ◌&&◌, ◌||◌, ltb, leb, ◌==◌, Option, none,
  some, length, if◌then◌else◌, ite,
}
use market_data.Prelude.Map.{Map, get, put, delete}
use market_data.Errors.{
  Error, Result, err, ok, canceled, upstream_attempt_limit, service_overloaded,
}
use market_data.Domain.Names.{Exchange, Exchange-discrete}
use market_data.Domain.Time.{Time}
use market_data.Application.Series.{Scope, Series, Query, Series-discrete}
use market_data.Application.Planner.Loading.{Refreshes}
use market_data.Application.Refreshes.{merge}

pub record Settings : Type 0 where
  pub history_candles : ℕ
  pub max_callers : ℕ
  pub max_active_fills : ℕ
  pub max_active_fills_per_exchange : ℕ
  pub max_attempts : ℕ
  pub fill_timeout : ℕ

-- An `Event`, by the fields that an `emit` sets next to the scope.
pub data Event : Type 0 where
  cache_read : Scope → Bool → Event
  fill_started shared_wait : Scope → Event
  attempted downloaded : Scope → ℕ → Event

pub record Budget : Type 0 where
  pub remaining : ℕ
  pub exhausted : Bool

pub record Fill : Type 0 where
  pub done : Bool
  pub callers : ℕ → Bool
  pub refreshed : Refreshes
  pub saved : Refreshes
  pub failure : Option Error
  pub attempts : ℕ

pub record Service : Type 0 where
  pub settings : Settings
  pub callers : ℕ
  pub stopped : Bool
  pub fills : Map Series ℕ
  pub active : Exchange → ℕ
  pub heap : ℕ → Fill
  pub allocated : ℕ
  pub budgets : ℕ → Budget
  pub observed : List Event

-- `m[k] = v` on a store that is a function.
abbrev pub set {ℓ} : {A : Type ℓ} → ℕ → A → (ℕ → A) → ℕ → A
set k v m j = if k == j then v else m j

unfoldable pub set_active : Exchange → ℕ → (Exchange → ℕ) → Exchange → ℕ
unfolding Exchange-discrete
set_active e n active e' = ite (Exchange-discrete e e') n (active e')

abbrev no_fill : Fill
no_fill = record {
  done = false;
  callers = λ b. false;
  refreshed = [];
  saved = [];
  failure = none;
  attempts = 0;
}

-- The state that `NewService` makes. A call of `Get` makes its budget full, so each is full here.
unfoldable pub new_service : Settings → Service
new_service settings = record {
  settings = settings;
  callers = 0;
  stopped = false;
  fills = [];
  active = λ e. 0;
  heap = λ p. no_fill;
  allocated = 0;
  budgets = λ b. record { remaining = settings.max_attempts; exhausted = false };
  observed = [];
}

-- `s.callers <- struct{}{}` where there is room, and `<-s.callers`.
unfoldable pub take_slot : Service → Result (Unit {0}) × Service
take_slot s =
    if ltb s.callers s.settings.max_callers
    then (ok tt, record s { callers = suc s.callers })
    else (err service_overloaded, s)

unfoldable pub free_slot : Service → Service
free_slot s = record s { callers = s.callers - 1 }

-- The caller `b` joins the fill at `p`.
unfoldable pub join_shared : Query → ℕ → ℕ → Service → Result ℕ × Service
join_shared q p b s =
    let f = s.heap p in
    let budget = s.budgets b in
    if ltb budget.remaining f.attempts then (err upstream_attempt_limit, s) else (
      ok p,
      record s {
        budgets = set b (record budget { remaining = budget.remaining - f.attempts }) s.budgets;
        heap = set p (record f { callers = set b true f.callers }) s.heap;
        observed = shared_wait q.scope ∷ s.observed;
      },
    )

-- The caller `b` starts a fill.
unfoldable pub start_fill : Query → Refreshes → ℕ → Service → Result ℕ × Service
unfolding set_active
start_fill q refreshed b s =
    if leb s.settings.max_active_fills (length s.fills)
      || leb s.settings.max_active_fills_per_exchange (s.active q.exchange)
    then (err service_overloaded, s)
    else (
      ok s.allocated,
      record s {
        heap =
            set s.allocated
              (record no_fill { callers = set b true (λ c. false); refreshed = refreshed }) s.heap;
        allocated = suc s.allocated;
        fills = put Series-discrete q.series s.allocated s.fills;
        active = set_active q.exchange (suc (s.active q.exchange)) s.active;
        observed = fill_started q.scope ∷ s.observed;
      },
    )

unfoldable pub join : Option Error → Query → Refreshes → ℕ → Service → Result ℕ × Service
unfolding Series-discrete join_shared start_fill
join failure q refreshed b s = if s.stopped then (err canceled, s) else elim failure [
  | some e ↦ (err e, s)
  | none ↦ elim (get Series-discrete q.series s.fills) [
    | some p ↦ join_shared q p b s
    | none ↦ start_fill q refreshed b s
  ]
]

-- What an attempt does to the budget of a caller that waits for it.
abbrev pub spend : Budget → Budget
spend budget =
    if budget.remaining == 0
    then record budget { exhausted = true }
    else record budget { remaining = budget.remaining - 1 }

unfoldable pub attempt : Query → ℕ → Service → Service
attempt q p s =
    let f = s.heap p in
    record s {
      heap =
          set p
            (record f {
              attempts = suc f.attempts;
              callers = λ b. f.callers b && not ((s.budgets b).remaining == 0);
            })
            s.heap;
      budgets = λ b. if f.callers b then spend (s.budgets b) else s.budgets b;
      observed = attempted q.scope 1 ∷ s.observed;
    }

-- A page of `load`: the evidence that it adds to the fill.
unfoldable pub save : Query → ℕ → Refreshes → Service → Service
unfolding merge
save q p updated s =
    let f = s.heap p in
    record s {
      heap =
          set p
            (record f { refreshed = merge q updated f.refreshed; saved = merge q updated f.saved })
            s.heap;
    }

-- The goroutine that `join` starts, once the fill's operation returned `failure`.
unfoldable pub complete : Option Error → Query → ℕ → Service → Service
unfolding Series-discrete set_active
complete failure q p s = record s {
  heap = set p (record (s.heap p) { failure = failure; done = true }) s.heap;
  fills = delete Series-discrete q.series s.fills;
  active = set_active q.exchange (s.active q.exchange - 1) s.active;
}

-- The deferred call of `wait`.
unfoldable pub leave : ℕ → ℕ → Service → Service
leave b p s = record s {
  heap = set p (record (s.heap p) { callers = set b false (s.heap p).callers }) s.heap;
}

-- The critical section of `Wait`.
unfoldable pub stop : Service → Service
stop s = record s { stopped = true }

-- The cases of the `select` of `wait`, and what `wait` returns for one: `context` and `root` are
-- the errors of the two contexts.
pub data Wake : Type 0 where
  context_done root_done budget_exhausted fill_done : Wake

unfoldable pub wait_result : Wake → Option Error → Option Error → Budget → Fill → Option Error
wait_result context_done context root budget f = context
wait_result root_done context root budget f = root
wait_result budget_exhausted context root budget f = some upstream_attempt_limit
wait_result fill_done context root budget f =
    if budget.exhausted then some upstream_attempt_limit else f.failure
