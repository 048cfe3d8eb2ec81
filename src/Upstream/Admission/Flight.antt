-- ===== src/Upstream/Admission/Flight.antt =====
-- What happens to an admitted attempt, and to the limits, besides its release: `rollback` and
-- `dispatch` of internal/infrastructure/exchange/upstream/transport.go, `usageHeaders` of
-- internal/infrastructure/exchange/upstream/usage.go and the windows of `updateCatalog` of
-- internal/infrastructure/exchange/upstream/catalog.go.
use market_data.Prelude.{
  ℕ, ◌+◌, ◌-◌, true, not, ◌||◌, ltb, ◌==◌, if◌then◌else◌, Option, none, some, List, [], ◌∷◌,
  ℕ_discrete,
}
use market_data.Prelude.Map.{Map, put}
use market_data.Errors.{Error}
use market_data.Domain.Market.{Text}
use market_data.Domain.Time.{Time, is_zero, zero_time}
use market_data.Upstream.{UpstreamScope, Window, Entry, ScopeState, window_cost}
use market_data.Upstream.Usage.{prune, is_weight}
use market_data.Upstream.Admission.{Controller, lane_index, set_scope, set_lane}

-- The history without an attempt.
unfoldable pub withdraw : ℕ → List Entry → List Entry
withdraw ticket [] = []
withdraw ticket (e ∷ es) = if e.ticket == ticket then es else e ∷ withdraw ticket es

abbrev last_at : Entry → List Entry → Time
last_at e [] = e.at
last_at e (f ∷ es) = last_at f es

-- The time before which nothing more is sent, by the last attempt of a history.
abbrev next_after : ℕ → List Entry → Time
next_after spacing [] = zero_time
next_after spacing (e ∷ es) = last_at e es + spacing

abbrev pub withdrawn : Entry → ScopeState → ScopeState
withdrawn e s =
    let history = withdraw e.ticket s.history in
    record s {
      history = history;
      next = if s.next == e.at + s.spacing then next_after s.spacing history else s.next;
    }

-- `rollback` of the attempt `e` of an operation, in its scope.
unfoldable pub rollback : UpstreamScope → ScopeState → ℕ → Entry → Controller → Controller
unfolding withdraw
rollback scope s operation e c =
    let index = lane_index scope e.cost.operation in
    let l = c.lanes index in
    let o = c.operations operation in
    if e.dispatched then c else record c {
      scopes = set_scope scope (withdrawn e s) c.scopes;
      operations =
          λ n. if operation == n then record o { attempts = o.attempts - 1 } else c.operations n;
      active = c.active - 1;
      lanes = set_lane index (record l { active = l.active - 1 }) c.lanes;
    }

-- A write to the fields of an attempt that stays in the history.
unfoldable pub revise : (Entry → Entry) → ℕ → List Entry → List Entry
revise f ticket [] = []
revise f ticket (e ∷ es) = if e.ticket == ticket then f e ∷ es else e ∷ revise f ticket es

abbrev pub send : Entry → Entry
send e = record e { dispatched = true }

-- `dispatch`: `failure` is the answer of `ctx.Err`.
unfoldable pub dispatch : Option Error → UpstreamScope → ScopeState → ℕ → Controller → Controller
unfolding revise
dispatch (some failure) scope s ticket c = c
dispatch none scope s ticket c = record c {
  scopes = set_scope scope (record s { history = revise send ticket s.history }) c.scopes;
}

abbrev pub observed : Window → Option ℕ → Entry → Entry
observed w none e = e
observed w (some n) e = if not e.dispatched || ltb n (window_cost w e.cost) then e else record e {
  observations =
      put ℕ_discrete w.duration (record { used = n; expires = e.received + w.duration })
        e.observations;
}

-- The loop of `usageHeaders`: `used` gives the value of the header for the windows of a duration,
-- where `windowSuffix` has a name for it and `usedWeight` a valid value.
unfoldable pub observe_windows : (ℕ → Option ℕ) → Map Text Window → Entry → Entry
observe_windows used [] e = e
observe_windows used ((name, w) ∷ ws) e =
    observe_windows used ws (if is_weight w.measure then observed w (used w.duration) e else e)

unfoldable pub receive : Time → (ℕ → Option ℕ) → Map Text Window → Entry → Entry
unfolding observe_windows
receive now used windows e =
    observe_windows used windows
      (record e { received = if is_zero e.received then now else e.received })

-- `usageHeaders` on a path that it does not leave out.
unfoldable pub usage_headers :
    (ℕ → Option ℕ) → UpstreamScope → ScopeState → ℕ → Time → Controller → Controller
unfolding revise receive
usage_headers used scope s ticket now c =
    let t = prune now s in
    record c {
      scopes =
          set_scope scope
            (record t { history = revise (receive now used t.windows) ticket t.history }) c.scopes;
    }

-- `updateCatalog` with the windows that it leaves: the decoding of the catalog is not modelled.
unfoldable pub replace_windows :
    Map Text Window → UpstreamScope → ScopeState → Controller → Controller
replace_windows windows scope s c = record c {
  scopes = set_scope scope (record s { windows = windows }) c.scopes;
}
