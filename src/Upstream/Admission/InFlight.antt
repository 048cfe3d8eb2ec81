-- ===== src/Upstream/Admission/InFlight.antt =====
-- The bounds on attempts in flight and on waiters, over the runs of the controller
-- (internal/infrastructure/exchange/upstream/controller.go).
use market_data.Prelude.{
  if_cases, ℕ, ◌+◌, ◌≤◌, ◌≡◌, refl, sym, ap, subst, arith, Bool, ◌||◌, leb, Option, none, some, [],
  ◌∷◌, ◌++◌, length, length-append,
}
use market_data.Errors.{Error, Result}
use market_data.Domain.Time.{Time, before}
use market_data.Upstream.{UpstreamScope, Operation, ScopeState, max_time}
use market_data.Upstream.Admission.{
  Readiness, ready_at, deferred, refused, Waiter, Lane, Controller, set_scope,
}
use market_data.Upstream.Admission.Queue.{
  Round, waits_until, admitted, put_off, fails, lane_of, reserve_found, ready_for, round,
  leave_after, turn, enqueue, enqueue_ready, enter_scope, begin, begun, has_no_statistics, enter,
  release, release_found, cool_down, cool_down_found,
}
use market_data.Upstream.Admission.Pruned.{Pruned, Pruned_trans, Pruned-fields, ready_for-Pruned}
use market_data.Upstream.Admission.Slots.{tally, tally-set_scope, flying_in}
use market_data.Upstream.Admission.Steps.{
  In, Step, enters, begins_cycle, turns, gives_up, releases, rolls_back, dispatches, reads_headers,
  updates_catalog, cools_down, Reach, begins, continues,
}
use market_data.Upstream.Admission.Rounds.{round_cases}
use market_data.Upstream.Admission.FlightBalanced.{
  rollback-Balanced, dispatch-Balanced, usage_headers-Balanced, replace_windows-Balanced,
}
use market_data.Upstream.Admission.Balanced.{
  Balanced, set_lane_cases, sum-set_lane, lane_index-lt, of_lane, rescope-Balanced, Pruned-Balanced,
  reserve_found-Balanced, leave-Balanced, release_entry-Balanced,
}

enqueue-Balanced : (w : Waiter) (c : Controller) → Balanced c → Balanced (enqueue w c).0
enqueue-Balanced w c b =
    let l = c.lanes (lane_of w) in
    let longer : Lane = record l { queue = l.queue ++ w ∷ [] } in
    let grown : length (l.queue ++ w ∷ []) ≡ length l.queue + 1 = length-append l.queue (w ∷ []) in
    if_cases (λ (r : Controller × Result Waiter). Balanced r.0)
      (leb l.capacity (length l.queue) || leb c.max_waiters c.queued) (λ _. b)
      (λ space. record {
        counted = b.counted;
        by_lane =
            set_lane_cases (λ i l. l.active ≡ tally (of_lane i) c.scopes) (lane_of w) longer c.lanes
              (b.by_lane (lane_of w)) (λ i _. b.by_lane i);
        in_slots =
            set_lane_cases (λ i l. l.active ≤ l.slots) (lane_of w) longer c.lanes
              (b.in_slots (lane_of w)) (λ i _. b.in_slots i);
        in_flight = b.in_flight;
        in_queues =
            set_lane_cases (λ i l. length l.queue ≤ l.capacity) (lane_of w) longer c.lanes
              (ground (arith, grown, space)) (λ i _. b.in_queues i);
        queued_sum = omega (
          arith,
          grown,
          b.queued_sum,
          sum-set_lane (lane_of w) longer c.lanes (lane_index-lt w.scope w.cost.operation),
        );
        in_waiters = ground (arith, space);
      })

enqueue_ready-Balanced :
    (w : Waiter) (c : Controller) (r : Readiness) → Balanced c → Balanced (enqueue_ready w (c, r)).0
enqueue_ready-Balanced w c (refused e) b = b
enqueue_ready-Balanced w c (deferred d) b = b
enqueue_ready-Balanced w c (ready_at t) b = enqueue-Balanced w c b

enter_scope-Balanced :
    (o : Option ScopeState) (failure : Option Error) (w : Waiter) (now : Time) (c : Controller)
    → Balanced c
    → Balanced (enter_scope o failure w now c).0
enter_scope-Balanced none failure w now c b = b
enter_scope-Balanced (some s) (some e) w now c b = b
enter_scope-Balanced (some s) none w now c b =
    enqueue_ready-Balanced w (ready_for w now c).0 (ready_for w now c).1
      (Pruned-Balanced (ready_for-Pruned w now c) b)

release_found-Balanced :
    (o : Option ScopeState) (scope : UpstreamScope) (ticket : ℕ) (now : Time) (c : Controller)
    → c.scopes scope ≡ o
    → Balanced c
    → Balanced (release_found o scope ticket now c)
release_found-Balanced none scope ticket now c h b = b
release_found-Balanced (some s) scope ticket now c h b =
    release_entry-Balanced scope ticket now s _ c h refl b

cool_down_found-Balanced :
    (o : Option ScopeState) (scope : UpstreamScope) (until : Time) (c : Controller)
    → c.scopes scope ≡ o
    → Balanced c
    → Balanced (cool_down_found o scope until c)
cool_down_found-Balanced none scope until c h b = b
cool_down_found-Balanced (some s) scope until c h b =
    rescope-Balanced c
      (set_scope scope (record s { cooldown = max_time s.cooldown until }) c.scopes)
      (λ q. omega (
        arith,
        tally-set_scope q scope (record s { cooldown = max_time s.cooldown until }) c.scopes,
        ap (flying_in (q scope)) h,
      ))
      b

InQueue : Waiter → Controller → Type 0
InQueue w c = In w (c.lanes (lane_of w)).queue

-- A reservation leaves the queues as they are.
reserve_found-InQueue :
    (o : Option ScopeState) (w : Waiter) (now : Time) (c : Controller)
    → InQueue w c
    → InQueue w (reserve_found o w now c).0
unfolding InQueue
reserve_found-InQueue none w now c h = h
reserve_found-InQueue (some s) w now c h =
    set_lane_cases (λ i l. In w (c.lanes i).queue → In w l.queue) (lane_of w) _ c.lanes (λ k. k)
      (λ i _ k. k) (lane_of w) h

Pruned-InQueue :
    (w : Waiter) {now : Time} {c c' : Controller} → Pruned now c c' → InQueue w c → InQueue w c'
unfolding InQueue
Pruned-InQueue w {now} {c} {c'} p h = subst (InQueue w) (sym (Pruned-fields p)) h

round-Balanced :
    (dead : ℕ → Bool) (failure : Option Error) (deadline : Option Time) (now : Time) (w : Waiter)
    (c : Controller)
    → Balanced c
    → InQueue w c
    → Balanced (round dead failure deadline now w c).0
      × InQueue w (round dead failure deadline now w c).0
round-Balanced dead failure deadline now w c b h =
    round_cases (λ c. Balanced c × InQueue w c) dead now w c
      (λ c' p. (Pruned-Balanced p b, Pruned-InQueue w p h))
      (λ c' r.
        let p = Pruned_trans (ready_for-Pruned w now c) r.pruned in
        (
          reserve_found-Balanced (c'.scopes w.scope) w now c' refl r.free r.free_slot
              (Pruned-Balanced p b),
          reserve_found-InQueue (c'.scopes w.scope) w now c' (Pruned-InQueue w p h),
        ))
      failure deadline

leave_after-Balanced :
    (w : Waiter) (c : Controller) (r : Round)
    → Balanced c
    → InQueue w c
    → Balanced (leave_after w (c, r)).0
unfolding InQueue
leave_after-Balanced w c (waits_until t) b h = b
leave_after-Balanced w c (admitted n) b h = leave-Balanced w c h b
leave_after-Balanced w c (put_off d) b h = leave-Balanced w c h b
leave_after-Balanced w c (fails e) b h = leave-Balanced w c h b

begin-Balanced :
    (scope : UpstreamScope) (kind : Operation) (c : Controller)
    → Balanced c
    → Balanced (begin scope kind c).0
unfolding begin
begin-Balanced scope kind c b =
    if_cases (λ (r : Controller × Result ℕ). Balanced r.0) (has_no_statistics scope kind) (λ _. b)
      (λ _. begun-Balanced (c.scopes scope))
  where
    begun-Balanced : (o : Option ScopeState) → Balanced (begun o kind c).0
    begun-Balanced none = b
    begun-Balanced (some s) = record {
      counted = b.counted;
      by_lane = b.by_lane;
      in_slots = b.in_slots;
      in_flight = b.in_flight;
      in_queues = b.in_queues;
      queued_sum = b.queued_sum;
      in_waiters = b.in_waiters;
    }

Step-Balanced : {now : Time} {c c' : Controller} → Step now c c' → Balanced c → Balanced c'
unfolding enter turn release cool_down InQueue
Step-Balanced {now} {c} (enters failure scope cost operation not_before entered) b =
    enter_scope-Balanced (c.scopes scope) failure _ now c b
Step-Balanced {now} {c} (begins_cycle scope kind) b = begin-Balanced scope kind c b
Step-Balanced {now} {c} (turns dead failure deadline w h) b =
    let (after_round, there) = round-Balanced dead failure deadline now w c b h in
    leave_after-Balanced w (round dead failure deadline now w c).0
      (round dead failure deadline now w c).1 after_round there
Step-Balanced {now} {c} (gives_up w h) b = leave-Balanced w c h b
Step-Balanced {now} {c} (releases scope ticket) b =
    release_found-Balanced (c.scopes scope) scope ticket now c refl b
Step-Balanced {now} {c} (rolls_back scope s operation e h) b =
    rollback-Balanced c b scope s operation e h
Step-Balanced {now} {c} (dispatches failure scope s e h) b =
    dispatch-Balanced c b scope s failure e.ticket h.0
Step-Balanced {now} {c} (reads_headers used scope s e h) b =
    usage_headers-Balanced c b scope s used e.ticket now h.0
Step-Balanced {now} {c} (updates_catalog windows scope s h) b =
    replace_windows-Balanced c b scope s windows h
Step-Balanced {now} {c} (cools_down scope until) b =
    cool_down_found-Balanced (c.scopes scope) scope until c refl b

-- In every run from a controller whose counters are right and within their bounds, updates of the
-- catalog, rollbacks and the readings of headers among its steps, they stay so:
-- `active` and the `active` of every lane are the numbers of reservations in flight in the
-- histories, at most `MaxHTTPInflight` and the slots of the lane, and `queued` is the number of
-- waiters in the queues, at most `MaxAdmissionWaiters`, where no queue is longer than its
-- capacity.
pub reach-Balanced :
    (c : Controller) (start : Time) {c' : Controller} {now : Time}
    → Reach c start c' now
    → Balanced c
    → Balanced c'
reach-Balanced c start begins b = b
reach-Balanced c start (continues before later s) b =
    Step-Balanced s (reach-Balanced c start before b)
