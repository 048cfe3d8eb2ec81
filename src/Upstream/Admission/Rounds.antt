-- ===== src/Upstream/Admission/Rounds.antt =====
-- What a round of `acquire` (internal/infrastructure/exchange/upstream/controller.go) may do to the
-- controller: it prunes scopes, and reserves at most once.
use market_data.Prelude.{
  if_cases, ℕ, ◌<◌, ◌≡◌, refl, sym, subst, arith, Bool, true, false, not, ◌==◌, ◌&&◌, if◌then◌else◌,
  Option, none, some,
}
use market_data.Errors.{Error}
use market_data.Domain.Time.{Time, before, after}
use market_data.Upstream.Admission.{Readiness, ready_at, deferred, refused, Waiter, Controller}
use market_data.Upstream.Admission.Queue.{
  Round, lane_of, reserve_found, ready_for, dispatch, by_readiness, past_deadline, is_head, head,
  round, selected, spent_attempts,
}
use market_data.Upstream.Admission.Pruned.{
  Pruned, same, Pruned_trans, Pruned-fields, ready_for-Pruned, selected-Pruned, selected-slot,
}

selected_slot-Pruned :
    {now : Time} {c c' : Controller} {i : ℕ}
    → Pruned now c c'
    → ((c.lanes i).active < (c.lanes i).slots) × (c.active < c.max_inflight)
    → ((c'.lanes i).active < (c'.lanes i).slots) × (c'.active < c'.max_inflight)
selected_slot-Pruned {now} {c} {c'} {i} p h =
    subst (λ d. ((d.lanes i).active < (d.lanes i).slots) × (d.active < d.max_inflight))
      (sym (Pruned-fields p)) h

-- The controller at the moment of a reservation, from the one the round began with.
pub record Reserves (w : Waiter) (now : Time) (c c' : Controller) : Type 0 where
  pub time : Time
  pub answer : (ready_for w now c).1 ≡ ready_at time
  pub not_later : after time now ≡ false
  pub unexpired : before now w.expires ≡ true
  pub pruned : Pruned now (ready_for w now c).0 c'
  pub free_slot : (c'.lanes (lane_of w)).active < (c'.lanes (lane_of w)).slots
  pub free : c'.active < c'.max_inflight

module _ (P : Controller → Type 0) (dead : ℕ → Bool) (now : Time) (w : Waiter) (c : Controller)
    (pruned : (c' : Controller) → Pruned now c c' → P c')
    (reserves : (c' : Controller)
      → Reserves w now c c'
      → P (reserve_found (c'.scopes w.scope) w now c').0) where
  dispatch_cases :
      (until t : Time) (c' : Controller) (o : Option ℕ)
      → (ready_for w now c).1 ≡ ready_at t
      → after t now ≡ false
      → before now w.expires ≡ true
      → Pruned now (ready_for w now c).0 c'
      → ((i : ℕ)
          → o ≡ some i
          → ((c'.lanes i).active < (c'.lanes i).slots) × (c'.active < c'.max_inflight))
      → P (dispatch w now until (c', o)).0
  dispatch_cases until t c' none a l u p slot =
      pruned c' (Pruned_trans (ready_for-Pruned w now c) p)
  dispatch_cases until t c' (some i) a l u p slot =
      if_cases (λ (r : Controller × Round). P r.0) (i == lane_of w)
        (λ e.
          let (free, below) = slot i refl in
          reserves c' (record {
            time = t;
            answer = a;
            not_later = l;
            unexpired = u;
            pruned = p;
            free_slot = subst (λ j. (c'.lanes j).active < (c'.lanes j).slots) (same_lane e) free;
            free = below;
          }))
        (λ _. pruned c' (Pruned_trans (ready_for-Pruned w now c) p))
    where
      same_lane : i == lane_of w ≡ true → i ≡ lane_of w
      same_lane e = ground arith

  by_readiness_cases :
      (deadline : Option Time) (r : Readiness)
      → (ready_for w now c).1 ≡ r
      → P (by_readiness dead deadline now w ((ready_for w now c).0, r)).0
  by_readiness_cases deadline (refused e) a = pruned _ (ready_for-Pruned w now c)
  by_readiness_cases deadline (deferred d) a = pruned _ (ready_for-Pruned w now c)
  by_readiness_cases deadline (ready_at t) a =
      let c' = (ready_for w now c).0 in
      let unchanged = pruned c' (ready_for-Pruned w now c) in
      let until = if after t now && before t w.expires then t else w.expires in
      if_cases (λ (r : Controller × Round). P r.0) (past_deadline deadline (c'.scopes w.scope))
        (λ _. unchanged)
        (λ _.
          if_cases (λ (r : Controller × Round). P r.0) (not (before now w.expires)) (λ _. unchanged)
            (λ u.
              if_cases (λ (r : Controller × Round). P r.0)
                (is_head w (head (c'.lanes (lane_of w)).queue) && not (after t now))
                (λ l.
                  dispatch_cases until t (selected dead now c').0 (selected dead now c').1 a
                    (second (is_head w (head (c'.lanes (lane_of w)).queue)) (after t now) l)
                    (holds (before now w.expires) u) (selected-Pruned dead now c')
                    (λ i e.
                      selected_slot-Pruned {i = i} (selected-Pruned dead now c')
                        (selected-slot dead now c' e)))
                (λ _. unchanged)))
    where
      second : (a b : Bool) → a && not b ≡ true → b ≡ false
      second a b h = ground arith

      holds : (b : Bool) → not b ≡ false → b ≡ true
      holds b h = ground arith

  pub round_cases :
      (failure : Option Error) (deadline : Option Time) → P (round dead failure deadline now w c).0
  unfolding round
  round_cases (some e) deadline = pruned c same
  round_cases none deadline =
      if_cases (λ (r : Controller × Round). P r.0) (spent_attempts c w) (λ _. pruned c same)
        (λ _. by_readiness_cases deadline (ready_for w now c).1 refl)
