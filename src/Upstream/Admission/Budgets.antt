-- ===== src/Upstream/Admission/Budgets.antt =====
-- The shares of the windows of every scope, over the runs of the controller
-- (internal/infrastructure/exchange/upstream/controller.go).
use market_data.Prelude.{
  if_cases, ℕ, ◌≤◌, ◌<◌, ◌≡◌, refl, sym, ap, ◌∙◌, subst, arith, Bool, true, false, not, ◌||◌, leb,
  Option, none, some, length, All,
}
use market_data.Errors.{Error, Result}
use market_data.Domain.Time.{Time}
use market_data.Upstream.{UpstreamScope, Operation, Entry, ScopeState, max_time}
use market_data.Upstream.Usage.{prune}
use market_data.Upstream.Admission.{
  Readiness, ready_at, deferred, refused, ready, Waiter, Controller, same_scope, set_scope,
}
use market_data.Upstream.Admission.Fits.{ready-admits}
use market_data.Upstream.Admission.Queue.{
  Round, waits_until, admitted, put_off, fails, ready_found, ready_for, reserve_found, round, leave,
  leave_after, turn, enqueue_ready, enter_scope, begin, begun, has_no_statistics, enter, land,
  attempt, release, release_entry, release_found, cool_down, cool_down_found, lane_of,
}
use market_data.Upstream.Admission.Pruned.{Pruned, same, prunes, Pruned_trans, ready_for-Pruned}
use market_data.Upstream.Admission.Rounds.{round_cases}
use market_data.Upstream.Admission.Steps.{
  Step, enters, begins_cycle, turns, gives_up, releases, rolls_back, dispatches, reads_headers,
  updates_catalog, cools_down, Keeps, Reach, begins, continues, Steady,
}
use market_data.Upstream.Admission.Flight.{
  withdrawn, rollback, dispatch, send, receive, usage_headers, replace_windows,
}
use market_data.Upstream.Admission.Flights.{send-Alike, receive-Alike}
use market_data.Upstream.Admission.FlightBudget.{
  withdrawn-Budgeted, revise-Budgeted, raised-Budgeted,
}
use market_data.Upstream.Admission.Budget.{
  Room, Budgeted, admits-All, prune-Room, prune-Budgeted, later-Budgeted, land-Budgeted,
  cool-Budgeted, reserve-Budgeted,
}

-- Every scope satisfies P.
abbrev EveryScope :
    (UpstreamScope → ScopeState → Type 0) → (UpstreamScope → Option ScopeState) → Type 0
EveryScope P scopes = (k : UpstreamScope) (s : ScopeState) → scopes k ≡ some s → P k s

-- In every scope, no operation has used more of a split window than its share.
abbrev pub AllBudgeted : Time → Controller → Type 0
AllBudgeted now c = EveryScope (λ k s. Budgeted now s) c.scopes

same_scope-eq : (j k : UpstreamScope) → same_scope j k ≡ true → j ≡ k
same_scope-eq j k h = ground arith

set_scope_cases :
    (P : UpstreamScope → ScopeState → Type 0) (k : UpstreamScope) (s : ScopeState)
    (scopes : UpstreamScope → Option ScopeState)
    → P k s
    → ((j : UpstreamScope) (t : ScopeState) → same_scope k j ≡ false → scopes j ≡ some t → P j t)
    → EveryScope P (set_scope k s scopes)
set_scope_cases P k s scopes here elsewhere j t =
    if_cases (λ o. o ≡ some t → P j t) (same_scope k j)
      (λ e h. subst (P j) (unwrap h) (subst (λ i. P i s) (same_scope-eq k j e) here))
      (λ e h. elsewhere j t e h)
  where
    unwrap : {s t : ScopeState} → some s ≡ some t → s ≡ t
    unwrap h = cc

Pruned-EveryScope :
    (P : UpstreamScope → ScopeState → Type 0) {now : Time} {c c' : Controller}
    → ((k : UpstreamScope) (s : ScopeState) → P k s → P k (prune now s))
    → Pruned now c c'
    → EveryScope P c.scopes
    → EveryScope P c'.scopes
Pruned-EveryScope P closed same h = h
Pruned-EveryScope P {now} closed (prunes {c} k s e p) h =
    Pruned-EveryScope P closed p
      (set_scope_cases P k (prune now s) c.scopes (closed k s (h k s e)) (λ j t _ f. h j t f))

not_ready {ℓ} : {A : Type ℓ} {t : Time} {e : Error} → refused e ≡ ready_at t → A
not_ready a = cc

same_scope_refl : (k : UpstreamScope) → same_scope k k ≡ true
same_scope_refl k = ground arith

other_scope {ℓ} : {A : Type ℓ} (j k : UpstreamScope) → same_scope k j ≡ false → j ≡ k → A
other_scope {A} j k h e = apart (sym (ap (same_scope k) (sym e) ∙ h))
  where
    apart : false ≡ same_scope k k → A
    apart h = let absurd : false ≡ true = h ∙ same_scope_refl k in cc

-- A scope whose request is ready has room for it in every window.
ready_found-Room :
    (o : Option ScopeState) (w : Waiter) (now t : Time) (c : Controller)
    → c.scopes w.scope ≡ o
    → (ready_found o w now c).1 ≡ ready_at t
    → t ≤ now
    → now < w.expires
    → AllBudgeted now c
    → EveryScope
        (λ k s. k ≡ w.scope → All (λ entry. Room w.cost now s entry.1) s.windows)
        (ready_found o w now c).0.scopes
unfolding ready
ready_found-Room none w now t c h a l u b = not_ready a
ready_found-Room (some s) w now t c h a l u b =
    set_scope_cases (λ k s. k ≡ w.scope → All (λ entry. Room w.cost now s entry.1) s.windows)
      w.scope (prune now s) c.scopes
      (λ _.
        admits-All (prune now s) w.cost now (prune-Budgeted now s (b w.scope s h)).sound
          (ready-admits s w.cost w.expires w.not_before now t a l u))
      (λ j s' other f e. other_scope j w.scope other e)

reserve_found-Budgeted :
    (o : Option ScopeState) (w : Waiter) (now : Time) (c : Controller)
    → c.scopes w.scope ≡ o
    → AllBudgeted now c
    → EveryScope (λ k s. k ≡ w.scope → All (λ entry. Room w.cost now s entry.1) s.windows) c.scopes
    → AllBudgeted now (reserve_found o w now c).0
reserve_found-Budgeted none w now c h b room = b
reserve_found-Budgeted (some s) w now c h b room =
    set_scope_cases (λ k s. Budgeted now s) w.scope _ c.scopes
      (reserve-Budgeted now c.tickets w.cost s (b w.scope s h) (room w.scope s h refl))
      (λ j t _ f. b j t f)

Pruned-Budgeted :
    {now : Time} {c c' : Controller} → Pruned now c c' → AllBudgeted now c → AllBudgeted now c'
Pruned-Budgeted {now} p = Pruned-EveryScope (λ k s. Budgeted now s) (λ k s. prune-Budgeted now s) p

round-Budgeted :
    (dead : ℕ → Bool) (failure : Option Error) (deadline : Option Time) (now : Time) (w : Waiter)
    (c : Controller)
    → AllBudgeted now c
    → AllBudgeted now (round dead failure deadline now w c).0
unfolding ready_for
round-Budgeted dead failure deadline now w c b =
    round_cases (AllBudgeted now) dead now w c (λ c' p. Pruned-Budgeted p b)
      (λ c' r.
        reserve_found-Budgeted (c'.scopes w.scope) w now c' refl
          (Pruned-Budgeted (Pruned_trans (ready_for-Pruned w now c) r.pruned) b)
          (Pruned-EveryScope
            (λ k s. k ≡ w.scope → All (λ entry. Room w.cost now s entry.1) s.windows)
            (λ k s room e. prune-Room w.cost now s (room e)) r.pruned
            (ready_found-Room (c.scopes w.scope) w now r.time c refl r.answer
              (ground (arith, r.not_later)) (ground (arith, r.unexpired)) b)))
      failure deadline

leave_after-Budgeted :
    (w : Waiter) (now : Time) (c : Controller) (r : Round)
    → AllBudgeted now c
    → AllBudgeted now (leave_after w (c, r)).0
unfolding leave
leave_after-Budgeted w now c (waits_until t) b = b
leave_after-Budgeted w now c (admitted n) b = b
leave_after-Budgeted w now c (put_off d) b = b
leave_after-Budgeted w now c (fails e) b = b

enter_scope-Budgeted :
    (o : Option ScopeState) (failure : Option Error) (w : Waiter) (now : Time) (c : Controller)
    → AllBudgeted now c
    → AllBudgeted now (enter_scope o failure w now c).0
enter_scope-Budgeted none failure w now c b = b
enter_scope-Budgeted (some s) (some e) w now c b = b
enter_scope-Budgeted (some s) none w now c b =
    enqueue_ready-Budgeted (ready_for w now c).0 (ready_for w now c).1
      (Pruned-Budgeted (ready_for-Pruned w now c) b)
  where
    enqueue_ready-Budgeted :
        (c : Controller) (r : Readiness)
        → AllBudgeted now c
        → AllBudgeted now (enqueue_ready w (c, r)).0
    enqueue_ready-Budgeted c (refused e) b = b
    enqueue_ready-Budgeted c (deferred d) b = b
    enqueue_ready-Budgeted c (ready_at t) b =
        if_cases (λ (r : Controller × Result Waiter). AllBudgeted now r.0)
          (leb (c.lanes (lane_of w)).capacity (length (c.lanes (lane_of w)).queue)
            || leb c.max_waiters c.queued)
          (λ _. b) (λ _. b)

release_found-Budgeted :
    (o : Option ScopeState) (scope : UpstreamScope) (ticket : ℕ) (now : Time) (c : Controller)
    → c.scopes scope ≡ o
    → AllBudgeted now c
    → AllBudgeted now (release_found o scope ticket now c)
release_found-Budgeted none scope ticket now c h b = b
release_found-Budgeted (some s) scope ticket now c h b = released (attempt ticket s.history)
  where
    released : (o : Option Entry) → AllBudgeted now (release_entry scope ticket now s o c)
    released none = b
    released (some e) =
        if_cases (AllBudgeted now) (not e.inflight) (λ _. b)
          (λ _.
            set_scope_cases (λ k s. Budgeted now s) scope
              (prune now (record s { history = land ticket s.history })) c.scopes
              (prune-Budgeted now _ (land-Budgeted now ticket s (b scope s h)))
              (λ j t _ f. b j t f))

cool_down_found-Budgeted :
    (o : Option ScopeState) (scope : UpstreamScope) (until now : Time) (c : Controller)
    → c.scopes scope ≡ o
    → AllBudgeted now c
    → AllBudgeted now (cool_down_found o scope until c)
cool_down_found-Budgeted none scope until now c h b = b
cool_down_found-Budgeted (some s) scope until now c h b =
    set_scope_cases (λ k s. Budgeted now s) scope
      (record s { cooldown = max_time s.cooldown until }) c.scopes
      (cool-Budgeted now until s (b scope s h)) (λ j t _ f. b j t f)

begin-Budgeted :
    (scope : UpstreamScope) (kind : Operation) (now : Time) (c : Controller)
    → AllBudgeted now c
    → AllBudgeted now (begin scope kind c).0
unfolding begin
begin-Budgeted scope kind now c b =
    if_cases (λ (r : Controller × Result ℕ). AllBudgeted now r.0) (has_no_statistics scope kind)
      (λ _. b) (λ _. begun-Budgeted (c.scopes scope))
  where
    begun-Budgeted : (o : Option ScopeState) → AllBudgeted now (begun o kind c).0
    begun-Budgeted none = b
    begun-Budgeted (some s) = b

-- A scope that is written back with its shares kept.
rescope-Budgeted :
    (now : Time) (scope : UpstreamScope) (t : ScopeState) (c : Controller)
    → Budgeted now t
    → AllBudgeted now c
    → AllBudgeted now (record c { scopes = set_scope scope t c.scopes })
rescope-Budgeted now scope t c kept b =
    set_scope_cases (λ k s. Budgeted now s) scope t c.scopes kept (λ j s _ f. b j s f)

rollback-Budgeted :
    (now : Time) (scope : UpstreamScope) (s : ScopeState) (operation : ℕ) (e : Entry)
    (c : Controller)
    → c.scopes scope ≡ some s
    → AllBudgeted now c
    → AllBudgeted now (rollback scope s operation e c)
unfolding rollback
rollback-Budgeted now scope s operation e c h b =
    if_cases (AllBudgeted now) e.dispatched (λ _. b)
      (λ _.
        rescope-Budgeted now scope (withdrawn e s) c (withdrawn-Budgeted now e s (b scope s h)) b)

dispatch-Budgeted :
    (now : Time) (failure : Option Error) (scope : UpstreamScope) (s : ScopeState) (ticket : ℕ)
    (c : Controller)
    → c.scopes scope ≡ some s
    → AllBudgeted now c
    → AllBudgeted now (dispatch failure scope s ticket c)
unfolding dispatch
dispatch-Budgeted now (some failure) scope s ticket c h b = b
dispatch-Budgeted now none scope s ticket c h b =
    rescope-Budgeted now scope _ c (revise-Budgeted now send ticket s send-Alike (b scope s h)) b

Step-Budgeted :
    {now : Time} {c c' : Controller} (step : Step now c c')
    → Keeps step
    → AllBudgeted now c
    → AllBudgeted now c'
unfolding enter turn leave release cool_down usage_headers replace_windows Keeps
Step-Budgeted {now} {c} (enters failure scope cost operation not_before entered) kept b =
    enter_scope-Budgeted (c.scopes scope) failure _ now c b
Step-Budgeted {now} {c} (begins_cycle scope kind) kept b = begin-Budgeted scope kind now c b
Step-Budgeted {now} {c} (turns dead failure deadline w h) kept b =
    leave_after-Budgeted w now (round dead failure deadline now w c).0
      (round dead failure deadline now w c).1 (round-Budgeted dead failure deadline now w c b)
Step-Budgeted {now} {c} (gives_up w h) kept b = b
Step-Budgeted {now} {c} (releases scope ticket) kept b =
    release_found-Budgeted (c.scopes scope) scope ticket now c refl b
Step-Budgeted {now} {c} (rolls_back scope s operation e h) kept b =
    rollback-Budgeted now scope s operation e c h.0 b
Step-Budgeted {now} {c} (dispatches failure scope s e h) kept b =
    dispatch-Budgeted now failure scope s e.ticket c h.0 b
Step-Budgeted {now} {c} (reads_headers used scope s e h) kept b =
    rescope-Budgeted now scope _ c
      (revise-Budgeted now (receive now used (prune now s).windows) e.ticket (prune now s)
        (receive-Alike now used (prune now s).windows) (prune-Budgeted now s (b scope s h.0)))
      b
Step-Budgeted {now} {c} (updates_catalog windows scope s h) kept b =
    rescope-Budgeted now scope _ c (raised-Budgeted now windows s kept (b scope s h)) b
Step-Budgeted {now} {c} (cools_down scope until) kept b =
    cool_down_found-Budgeted (c.scopes scope) scope until now c refl b

-- In a run from a controller that keeps the shares, with a clock that does not go back, in which no
-- catalog lowers a limit or adds a window, every controller keeps the shares at every time from
-- its last step on: in no scope, no operation has live costs above its percentage of the limit of
-- a split window. Limits are at most the greatest int, and shares at most 100. A lower limit
-- applies at once to what is already used, so that such a catalog can break a share.
pub reach-Budgeted :
    (c : Controller) (start : Time) {c' : Controller} {now : Time} (later : Time)
    (run : Reach c start c' now)
    → Steady run
    → now ≤ later
    → AllBudgeted start c
    → AllBudgeted later c'
unfolding Steady
reach-Budgeted c start {c'} {now} later run steady h b k s e =
    later-Budgeted now later s h (reach_now run steady k s e)
  where
    reach_now :
        {c' : Controller} {now : Time} (run : Reach c start c' now)
        → Steady run
        → AllBudgeted now c'
    reach_now begins steady = b
    reach_now (continues {before} {now} r l s) (steady, kept) =
        Step-Budgeted s kept (λ k t e. later-Budgeted before now t l (reach_now r steady k t e))
