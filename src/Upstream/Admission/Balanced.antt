-- ===== src/Upstream/Admission/Balanced.antt =====
-- The counters of the controller (internal/infrastructure/exchange/upstream/controller.go) and its
-- bounds on attempts in flight and on waiters.
use market_data.Prelude.{
  if_cases, ℕ, ◌+◌, ◌-◌, ◌≤◌, ◌<◌, ◌≡◌, refl, sym, ap, ◌∙◌, subst, arith, Bool, true, false, not,
  ◌==◌, if◌then◌else◌, Option, none, some, List, [], ◌∷◌, length, inl, inr,
}
use market_data.Domain.Time.{Time}
use market_data.Upstream.{UpstreamScope, Operation, Entry, ScopeState}
use market_data.Upstream.Usage.{prune}
use market_data.Upstream.Admission.{
  Waiter, Lane, Attempts, Controller, lane_count, lane_index, set_scope, set_lane, reserve,
}
use market_data.Upstream.Admission.Queue.{
  lane_of, reserve_found, without, leave, land, attempt, release_entry,
}
use market_data.Upstream.Admission.Pruned.{Pruned, Pruned-fields}
use market_data.Upstream.Admission.Slots.{
  tally, tally-set_scope, tally-Pruned, flying, flying_in, flying-reserve, flying-prune,
  flying-land,
}
use market_data.Upstream.Admission.Steps.{In, sum, sum_change}

abbrev pub any : UpstreamScope → Operation → Bool
any k op = true

abbrev pub of_lane : ℕ → UpstreamScope → Operation → Bool
of_lane i k op = lane_index k op == i

abbrev pub waiting : (ℕ → Lane) → ℕ → ℕ
waiting lanes i = length (lanes i).queue

-- The counters count what they are to count, and keep their bounds.
pub record Balanced (c : Controller) : Type 0 where
  pub counted : c.active ≡ tally any c.scopes
  pub by_lane : (i : ℕ) → (c.lanes i).active ≡ tally (of_lane i) c.scopes
  pub in_slots : (i : ℕ) → (c.lanes i).active ≤ (c.lanes i).slots
  pub in_flight : c.active ≤ c.max_inflight
  pub in_queues : (i : ℕ) → waiting c.lanes i ≤ (c.lanes i).capacity
  pub queued_sum : c.queued ≡ sum lane_count (waiting c.lanes)
  pub in_waiters : c.queued ≤ c.max_waiters

pub lane_index-lt : (k : UpstreamScope) (op : Operation) → lane_index k op < lane_count
lane_index-lt k op = ground arith

pub set_lane_cases :
    (P : ℕ → Lane → Type 0) (i : ℕ) (l : Lane) (lanes : ℕ → Lane)
    → P i l
    → ((j : ℕ) → i == j ≡ false → P j (lanes j))
    → (j : ℕ) → P j (set_lane i l lanes j)
set_lane_cases P i l lanes here elsewhere j =
    if_cases (P j) (i == j) (λ e. subst (λ k. P k l) (same_index e) here) (elsewhere j)
  where
    same_index : i == j ≡ true → i ≡ j
    same_index e = ground arith

pub sum-set_lane :
    (i : ℕ) (l : Lane) (lanes : ℕ → Lane)
    → i < lane_count
    → sum lane_count (waiting (set_lane i l lanes)) + waiting lanes i
      ≡ sum lane_count (waiting lanes) + length l.queue
sum-set_lane i l lanes h =
    sum_change lane_count i (waiting (set_lane i l lanes)) (waiting lanes) h (λ j e. rw e refl)
    ∙ ap (λ n. sum lane_count (waiting lanes) + n) at_index
  where
    at_index : waiting (set_lane i l lanes) i ≡ length l.queue
    at_index = ground arith

pub rescope-Balanced :
    (c : Controller) (scopes : UpstreamScope → Option ScopeState)
    → ((q : UpstreamScope → Operation → Bool) → tally q scopes ≡ tally q c.scopes)
    → Balanced c
    → Balanced (record c { scopes = scopes })
rescope-Balanced c scopes h b = record {
  counted = b.counted ∙ sym (h any);
  by_lane = λ i. b.by_lane i ∙ sym (h (of_lane i));
  in_slots = b.in_slots;
  in_flight = b.in_flight;
  in_queues = b.in_queues;
  queued_sum = b.queued_sum;
  in_waiters = b.in_waiters;
}

pub Pruned-Balanced : {now : Time} {c c' : Controller} → Pruned now c c' → Balanced c → Balanced c'
Pruned-Balanced {now} {c} {c'} p b =
    subst Balanced (sym (Pruned-fields p)) (rescope-Balanced c c'.scopes (λ q. tally-Pruned q p) b)

pub reserve_found-Balanced :
    (o : Option ScopeState) (w : Waiter) (now : Time) (c : Controller)
    → c.scopes w.scope ≡ o
    → c.active < c.max_inflight
    → (c.lanes (lane_of w)).active < (c.lanes (lane_of w)).slots
    → Balanced c
    → Balanced (reserve_found o w now c).0
reserve_found-Balanced none w now c h free slot b = b
reserve_found-Balanced (some s) w now c h free slot b =
    let scopes = set_scope w.scope (reserve c.tickets w.cost now s) c.scopes in
    let taken : Lane = record (c.lanes (lane_of w)) { active = (c.lanes (lane_of w)).active + 1 } in
    let more : (q : UpstreamScope → Operation → Bool)
        → tally q scopes ≡ tally q c.scopes + (if q w.scope w.cost.operation then 1 else 0) =
      λ q. omega (
        arith,
        tally-set_scope q w.scope (reserve c.tickets w.cost now s) c.scopes,
        flying-reserve (q w.scope) c.tickets w.cost now s,
        ap (flying_in (q w.scope)) h,
      ) in
    record {
      counted = omega (arith, b.counted, more any);
      by_lane =
          set_lane_cases (λ i l. l.active ≡ tally (of_lane i) scopes) (lane_of w) taken c.lanes
            (ground (arith, more (of_lane (lane_of w)), b.by_lane (lane_of w)))
            (λ i other. ground (arith, more (of_lane i), b.by_lane i));
      in_slots =
          set_lane_cases (λ i l. l.active ≤ l.slots) (lane_of w) taken c.lanes (omega (arith, slot))
            (λ i _. b.in_slots i);
      in_flight = omega (arith, free);
      in_queues =
          set_lane_cases (λ i l. length l.queue ≤ l.capacity) (lane_of w) taken c.lanes
            (b.in_queues (lane_of w)) (λ i _. b.in_queues i);
      queued_sum = omega (
        arith,
        b.queued_sum,
        sum-set_lane (lane_of w) taken c.lanes (lane_index-lt w.scope w.cost.operation),
      );
      in_waiters = b.in_waiters;
    }

length-without :
    (w : Waiter) (ws : List Waiter) → In w ws → length (without w.number ws) + 1 ≡ length ws
unfolding without
length-without w [] h = ground arith
length-without w (v ∷ vs) (inl e) = ground arith
length-without w (v ∷ vs) (inr h) = ground (arith, length-without w vs h)

pub leave-Balanced :
    (w : Waiter) (c : Controller)
    → In w (c.lanes (lane_of w)).queue
    → Balanced c
    → Balanced (leave w c)
unfolding leave
leave-Balanced w c h b =
    let l = c.lanes (lane_of w) in
    let shorter : Lane = record l { queue = without w.number l.queue } in
    let fewer = length-without w l.queue h in
    let bound = lane_index-lt w.scope w.cost.operation in
    record {
      counted = b.counted;
      by_lane =
          set_lane_cases (λ i l. l.active ≡ tally (of_lane i) c.scopes) (lane_of w) shorter c.lanes
            (b.by_lane (lane_of w)) (λ i _. b.by_lane i);
      in_slots =
          set_lane_cases (λ i l. l.active ≤ l.slots) (lane_of w) shorter c.lanes
            (b.in_slots (lane_of w)) (λ i _. b.in_slots i);
      in_flight = b.in_flight;
      in_queues =
          set_lane_cases (λ i l. length l.queue ≤ l.capacity) (lane_of w) shorter c.lanes
            (omega (arith, fewer, b.in_queues (lane_of w))) (λ i _. b.in_queues i);
      queued_sum =
          omega (arith, fewer, b.queued_sum, sum-set_lane (lane_of w) shorter c.lanes bound);
      in_waiters = omega (arith, b.in_waiters);
    }

-- One attempt less in flight, in its scope and its lane.
pub one_less-Balanced :
    (scope : UpstreamScope) (op : Operation) (s t : ScopeState) (operations : ℕ → Attempts)
    (c : Controller)
    → c.scopes scope ≡ some s
    → ((q : Operation → Bool) → flying q t.history + (if q op then 1 else 0) ≡ flying q s.history)
    → Balanced c
    → Balanced (record c {
      operations = operations;
      active = c.active - 1;
      lanes =
          set_lane
            (lane_index scope op)
            (record (c.lanes (lane_index scope op)) {
              active = (c.lanes (lane_index scope op)).active - 1;
            })
            c.lanes;
      scopes = set_scope scope t c.scopes;
    })
one_less-Balanced scope op s t operations c h one b =
    let index = lane_index scope op in
    let l = c.lanes index in
    let freed : Lane = record l { active = l.active - 1 } in
    let scopes = set_scope scope t c.scopes in
    let fewer : (q : UpstreamScope → Operation → Bool)
        → tally q scopes + (if q scope op then 1 else 0) ≡ tally q c.scopes =
      λ q.
        omega
          (arith, tally-set_scope q scope t c.scopes, one (q scope), ap (flying_in (q scope)) h) in
    record {
      counted = omega (arith, b.counted, fewer any);
      by_lane =
          set_lane_cases (λ i l. l.active ≡ tally (of_lane i) scopes) index freed c.lanes
            (ground (arith, fewer (of_lane index), b.by_lane index))
            (λ i other. ground (arith, fewer (of_lane i), b.by_lane i));
      in_slots =
          set_lane_cases (λ i l. l.active ≤ l.slots) index freed c.lanes
            (omega (arith, b.in_slots index)) (λ i _. b.in_slots i);
      in_flight = omega (arith, b.in_flight);
      in_queues =
          set_lane_cases (λ i l. length l.queue ≤ l.capacity) index freed c.lanes
            (b.in_queues index) (λ i _. b.in_queues i);
      queued_sum =
          omega (arith, b.queued_sum, sum-set_lane index freed c.lanes (lane_index-lt scope op));
      in_waiters = b.in_waiters;
    }

pub release_entry-Balanced :
    (scope : UpstreamScope) (ticket : ℕ) (now : Time) (s : ScopeState) (o : Option Entry)
    (c : Controller)
    → c.scopes scope ≡ some s
    → attempt ticket s.history ≡ o
    → Balanced c
    → Balanced (release_entry scope ticket now s o c)
release_entry-Balanced scope ticket now s none c h k b = b
release_entry-Balanced scope ticket now s (some e) c h k b =
    if_cases Balanced (not e.inflight) (λ _. b)
      (λ flies.
        one_less-Balanced scope e.cost.operation s
          (prune now (record s { history = land ticket s.history })) c.operations c h
          (λ q. omega (
            arith,
            flying-prune q now (record s { history = land ticket s.history }),
            flying-land q ticket s.history k (in_flight e.inflight flies),
          ))
          b)
  where
    in_flight : (b : Bool) → not b ≡ false → b ≡ true
    in_flight true h = refl
    in_flight false h = cc
