-- ===== src/Upstream/Admission/Queue.antt =====
-- `acquire`, `selected`, `release` and `Cooldown` of
-- internal/infrastructure/exchange/upstream/controller.go, and `Begin` of operation.go beside it.
-- What the contexts of the waiters answer at a moment is a parameter: `dead` of every waiter's
-- number, and the error of the own context. A scope that a waiter names is there, since `acquire`
-- looks it up first: without it the code would panic, and the model refuses.
use market_data.Prelude.{
  ℕ, ◌+◌, ◌-◌, ◌%◌, Bool, true, false, not, ◌&&◌, ◌||◌, leb, ◌==◌, if◌then◌else◌, Option, none,
  some, List, [], ◌∷◌, ◌++◌, length,
}
use market_data.Errors.{
  Error, Result, ok, err, internal, service_overloaded, upstream_unavailable,
  upstream_attempt_limit, unsupported_operation,
}
use market_data.Domain.Time.{Time, before, after}
use market_data.Upstream.{UpstreamScope, bybit, Operation, at, Cost, Entry, ScopeState, max_time}
use market_data.Upstream.Usage.{prune}
use market_data.Upstream.Admission.{
  Deferral, Readiness, ready_at, deferred, refused, ready, reserve, Waiter, Lane, Controller,
  lane_count, lane_index, set_lane, set_scope,
}

-- What one round of the loop of `acquire` comes to.
pub data Round : Type 0 where
  waits_until : Time → Round
  admitted : ℕ → Round
  put_off : Deferral → Round
  fails : Error → Round

abbrev pub head : List Waiter → Option Waiter
head [] = none
head (w ∷ _) = some w

-- `c.ready(w, now)`.
abbrev pub ready_found : Option ScopeState → Waiter → Time → Controller → Controller × Readiness
ready_found none w now c = (c, refused internal)
ready_found (some s) w now c =
    let (pruned, answer) = ready s w.cost w.expires w.not_before now in
    (record c { scopes = set_scope w.scope pruned c.scopes }, answer)

unfoldable pub ready_for : Waiter → Time → Controller → Controller × Readiness
ready_for w now c = ready_found (c.scopes w.scope) w now c

abbrev is_ready : Time → Readiness → Bool
is_ready now (ready_at t) = not (after t now)
is_ready now _ = false

-- `operation.attempts >= operation.maximum`.
abbrev pub spent_attempts : Controller → Waiter → Bool
spent_attempts c w = leb (c.operations w.operation).maximum (c.operations w.operation).attempts

-- One lane in `selected`.
unfoldable pub consider : (ℕ → Bool) → Time → Lane → Option Waiter → Controller → Controller × Bool
unfolding ready_for
consider dead now l none c = (c, false)
consider dead now l (some w) c =
    let (c', answer) = ready_for w now c in
    if leb l.slots l.active || dead w.number || not (before now w.expires) || spent_attempts c w
    then (c, false)
    else (c', is_ready now answer)

unfoldable pub select_lane : (ℕ → Bool) → Time → List ℕ → Controller → Controller × Option ℕ
unfolding consider
select_lane dead now [] c = (c, none)
select_lane dead now (offset ∷ offsets) c =
    let index = (c.next_lane + offset) % lane_count in
    let (c', goes) = consider dead now (c.lanes index) (head (c.lanes index).queue) c in
    let later = select_lane dead now offsets c' in if goes then (c', some index) else later

abbrev pub lane_offsets : List ℕ
lane_offsets = 0 ∷ 1 ∷ 2 ∷ 3 ∷ 4 ∷ 5 ∷ 6 ∷ 7 ∷ []

-- `selected`, where -1 is `none`.
unfoldable pub selected : (ℕ → Bool) → Time → Controller → Controller × Option ℕ
unfolding select_lane
selected dead now c =
    if leb c.max_inflight c.active then (c, none) else select_lane dead now lane_offsets c

abbrev pub lane_of : Waiter → ℕ
lane_of w = lane_index w.scope w.cost.operation

-- The assignments of an admission.
abbrev pub reserve_found : Option ScopeState → Waiter → Time → Controller → Controller × Round
reserve_found none w now c = (c, fails internal)
reserve_found (some s) w now c =
    let l = c.lanes (lane_of w) in
    let operation = c.operations w.operation in
    (
      record c {
        operations = λ n.
            if w.operation == n
            then record operation { attempts = operation.attempts + 1 }
            else c.operations n;
        scopes = set_scope w.scope (reserve c.tickets w.cost now s) c.scopes;
        active = c.active + 1;
        lanes = set_lane (lane_of w) (record l { active = l.active + 1 }) c.lanes;
        next_lane = (lane_of w + 1) % lane_count;
        tickets = c.tickets + 1;
      },
      admitted c.tickets,
    )

-- If the lane is selected, it is this one's turn.
abbrev pub dispatch : Waiter → Time → Time → Controller × Option ℕ → Controller × Round
dispatch w now until (c, none) = (c, waits_until until)
dispatch w now until (c, some index) =
    if index == lane_of w then reserve_found (c.scopes w.scope) w now c else (c, waits_until until)

abbrev pub past_deadline : Option Time → Option ScopeState → Bool
past_deadline (some deadline) (some s) = not (before s.cooldown deadline)
past_deadline _ _ = false

abbrev pub is_head : Waiter → Option Waiter → Bool
is_head w none = false
is_head w (some v) = v.number == w.number

abbrev pub by_readiness :
    (ℕ → Bool) → Option Time → Time → Waiter → Controller × Readiness → Controller × Round
by_readiness dead deadline now w (c, refused e) = (c, fails e)
by_readiness dead deadline now w (c, deferred d) = (c, put_off d)
by_readiness dead deadline now w (c, ready_at t) =
    let until = if after t now && before t w.expires then t else w.expires in
    if past_deadline deadline (c.scopes w.scope)
    then (c, fails upstream_unavailable)
    else if not (before now w.expires)
    then (c, fails service_overloaded)
    else if is_head w (head (c.lanes (lane_of w)).queue) && not (after t now)
    then dispatch w now until (selected dead now c)
    else (c, waits_until until)

-- One round of the loop of `acquire`, from the reading of the clock to `wait`.
unfoldable pub round :
    (ℕ → Bool) → Option Error → Option Time → Time → Waiter → Controller → Controller × Round
unfolding ready_for selected
round dead (some e) deadline now w c = (c, fails e)
round dead none deadline now w c =
    if spent_attempts c w
    then (c, fails upstream_attempt_limit)
    else by_readiness dead deadline now w (ready_for w now c)

unfoldable pub without : ℕ → List Waiter → List Waiter
without n [] = []
without n (w ∷ ws) = if w.number == n then ws else w ∷ without n ws

-- The deferred function of `acquire`.
unfoldable pub leave : Waiter → Controller → Controller
unfolding without
leave w c =
    let l = c.lanes (lane_of w) in
    record c {
      lanes = set_lane (lane_of w) (record l { queue = without w.number l.queue }) c.lanes;
      queued = c.queued - 1;
    }

abbrev pub leave_after : Waiter → Controller × Round → Controller × Round
leave_after w (c, waits_until t) = (c, waits_until t)
leave_after w (c, outcome) = (leave w c, outcome)

-- A round of the loop, and the deferred function where the round returns.
unfoldable pub turn :
    (ℕ → Bool) → Option Error → Option Time → Time → Waiter → Controller → Controller × Round
unfolding round leave
turn dead failure deadline now w c = leave_after w (round dead failure deadline now w c)

abbrev pub enqueue : Waiter → Controller → Controller × Result (Waiter)
enqueue w c =
    let l = c.lanes (lane_of w) in
    if leb l.capacity (length l.queue) || leb c.max_waiters c.queued
    then (c, err service_overloaded)
    else (
      record c {
        lanes = set_lane (lane_of w) (record l { queue = l.queue ++ w ∷ [] }) c.lanes;
        queued = c.queued + 1;
        tickets = c.tickets + 1;
      },
      ok w,
    )

abbrev pub enqueue_ready : Waiter → Controller × Readiness → Controller × Result Waiter
enqueue_ready w (c, refused e) = (c, err e)
enqueue_ready w (c, deferred d) = (c, err service_overloaded)
enqueue_ready w (c, ready_at t) = enqueue w c

abbrev pub enter_live : Option Error → Waiter → Time → Controller → Controller × Result Waiter
enter_live (some e) w now c = (c, err e)
enter_live none w now c = enqueue_ready w (ready_for w now c)

abbrev pub enter_scope :
    Option ScopeState → Option Error → Waiter → Time → Controller → Controller × Result Waiter
enter_scope none failure w now c = (c, err unsupported_operation)
enter_scope (some s) failure w now c = enter_live failure w now c

abbrev pub begun : Option ScopeState → Operation → Controller → Controller × Result ℕ
begun none kind c = (c, err unsupported_operation)
begun (some s) kind c = (
  record c {
    operations = λ n.
        if c.tickets == n
        then record { attempts = 0; maximum = at c.cycle_attempts kind }
        else c.operations n;
    tickets = c.tickets + 1;
  },
  ok c.tickets,
)

abbrev pub has_no_statistics : UpstreamScope → Operation → Bool
has_no_statistics bybit Operation.market_stats = true
has_no_statistics _ _ = false

-- `Begin`: a cycle of attempts, found by a new number.
unfoldable pub begin : UpstreamScope → Operation → Controller → Controller × Result ℕ
begin scope kind c =
    if has_no_statistics scope kind
    then (c, err unsupported_operation)
    else begun (c.scopes scope) kind c

-- `acquire` up to its loop, with its two readings of the clock.
unfoldable pub enter :
    Option Error
    → UpstreamScope
    → Cost
    → ℕ
    → Time
    → Time
    → Time
    → Controller
    → Controller × Result Waiter
unfolding ready_for
enter failure scope cost operation not_before entered now c =
    let w : Waiter = record {
      number = c.tickets;
      scope = scope;
      cost = cost;
      operation = operation;
      expires = entered + c.admission_timeout;
      not_before = not_before;
    } in
    enter_scope (c.scopes scope) failure w now c

-- `attempt.inflight = false`.
unfoldable pub land : ℕ → List Entry → List Entry
land ticket [] = []
land ticket (e ∷ es) =
    if e.ticket == ticket then record e { inflight = false } ∷ es else e ∷ land ticket es

unfoldable pub attempt : ℕ → List Entry → Option Entry
attempt ticket [] = none
attempt ticket (e ∷ es) = if e.ticket == ticket then some e else attempt ticket es

abbrev pub release_entry :
    UpstreamScope → ℕ → Time → ScopeState → Option Entry → Controller → Controller
release_entry scope ticket now s none c = c
release_entry scope ticket now s (some e) c =
    let index = lane_index scope e.cost.operation in
    let l = c.lanes index in
    if not e.inflight then c else record c {
      active = c.active - 1;
      lanes = set_lane index (record l { active = l.active - 1 }) c.lanes;
      scopes = set_scope scope (prune now (record s { history = land ticket s.history })) c.scopes;
    }

abbrev pub release_found : Option ScopeState → UpstreamScope → ℕ → Time → Controller → Controller
release_found none scope ticket now c = c
release_found (some s) scope ticket now c =
    release_entry scope ticket now s (attempt ticket s.history) c

-- `release`: an attempt that the history no longer holds is not in flight.
unfoldable pub release : UpstreamScope → ℕ → Time → Controller → Controller
unfolding attempt land
release scope ticket now c = release_found (c.scopes scope) scope ticket now c

abbrev pub cool_down_found : Option ScopeState → UpstreamScope → Time → Controller → Controller
cool_down_found none scope until c = c
cool_down_found (some s) scope until c = record c {
  scopes = set_scope scope (record s { cooldown = max_time s.cooldown until }) c.scopes;
}

-- `Cooldown`.
unfoldable pub cool_down : UpstreamScope → Time → Controller → Controller
cool_down scope until c = cool_down_found (c.scopes scope) scope until c
