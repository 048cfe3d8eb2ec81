-- ===== src/Upstream/Admission/Pruned.antt =====
-- `ready` and `selected` of internal/infrastructure/exchange/upstream/controller.go change a
-- controller by pruning its scopes only.
use market_data.Prelude.{
  ℕ, ◌+◌, ◌%◌, ◌<◌, ◌≡◌, refl, ap, subst, arith, Bool, true, false, not, ◌||◌, leb, Option, none,
  some, List, [], ◌∷◌, if_cases,
}
use market_data.Domain.Time.{Time, before}
use market_data.Upstream.{UpstreamScope, ScopeState}
use market_data.Upstream.Usage.{prune}
use market_data.Upstream.Admission.{ready, Waiter, Lane, Controller, set_scope, lane_count}
use market_data.Upstream.Admission.Queue.{
  ready_found, ready_for, consider, select_lane, selected, lane_offsets, head, spent_attempts,
}

abbrev pub with_scope : UpstreamScope → ScopeState → Controller → Controller
with_scope k s c = record c { scopes = set_scope k s c.scopes }

pub data Pruned (now : Time) : Controller → Controller → Type 0 where
  same : {c : Controller} → Pruned now c c
  prunes :
      {c c' : Controller} (k : UpstreamScope) (s : ScopeState)
      → c.scopes k ≡ some s
      → Pruned now (with_scope k (prune now s) c) c'
      → Pruned now c c'

false_true {ℓ} : {A : Type ℓ} → false ≡ true → A
false_true h = cc

none_some {ℓ} : {A : Type ℓ} {i : ℕ} → none ≡ some i → A
none_some h = cc

pub Pruned_trans :
    {now : Time} {a b c : Controller} → Pruned now a b → Pruned now b c → Pruned now a c
Pruned_trans same q = q
Pruned_trans (prunes k s h p) q = prunes k s h (Pruned_trans p q)

ready_found-Pruned :
    (o : Option ScopeState) (w : Waiter) (now : Time) (c : Controller)
    → c.scopes w.scope ≡ o
    → Pruned now c (ready_found o w now c).0
unfolding ready
ready_found-Pruned none w now c h = same
ready_found-Pruned (some s) w now c h = prunes w.scope s h same

pub ready_for-Pruned :
    (w : Waiter) (now : Time) (c : Controller) → Pruned now c (ready_for w now c).0
unfolding ready_for
ready_for-Pruned w now c = ready_found-Pruned (c.scopes w.scope) w now c refl

consider-Pruned :
    (dead : ℕ → Bool) (now : Time) (l : Lane) (o : Option Waiter) (c : Controller)
    → Pruned now c (consider dead now l o c).0
unfolding consider
consider-Pruned dead now l none c = same
consider-Pruned dead now l (some w) c =
    if_cases (λ (r : Controller × Bool). Pruned now c r.0) _ (λ _. same)
      (λ _. ready_for-Pruned w now c)

pub select_lane-Pruned :
    (dead : ℕ → Bool) (now : Time) (offsets : List ℕ) (c : Controller)
    → Pruned now c (select_lane dead now offsets c).0
unfolding select_lane
select_lane-Pruned dead now [] c = same
select_lane-Pruned dead now (offset ∷ offsets) c =
    let l = c.lanes ((c.next_lane + offset) % lane_count) in
    let first = consider-Pruned dead now l (head l.queue) c in
    if_cases (λ (r : Controller × Option ℕ). Pruned now c r.0) _ (λ _. first)
      (λ _.
        Pruned_trans first
          (select_lane-Pruned dead now offsets (consider dead now l (head l.queue) c).0))

pub selected-Pruned :
    (dead : ℕ → Bool) (now : Time) (c : Controller) → Pruned now c (selected dead now c).0
unfolding selected
selected-Pruned dead now c =
    if_cases (λ (r : Controller × Option ℕ). Pruned now c r.0) (leb c.max_inflight c.active)
      (λ _. same) (λ _. select_lane-Pruned dead now lane_offsets c)

-- What pruning leaves as it is.
pub Pruned-fields :
    {now : Time} {c c' : Controller} → Pruned now c c' → c' ≡ record c { scopes = c'.scopes }
Pruned-fields same = refl
Pruned-fields (prunes k s h p) = Pruned-fields p

-- The lane that `select_lane` returns has a free slot.
consider-slot :
    (dead : ℕ → Bool) (now : Time) (l : Lane) (o : Option Waiter) (c : Controller)
    → (consider dead now l o c).1 ≡ true
    → l.active < l.slots
unfolding consider
consider-slot dead now l none c h = cc
consider-slot dead now l (some w) c h =
    if_cases (λ (r : Controller × Bool). r.1 ≡ true → l.active < l.slots)
      (leb l.slots l.active || dead w.number || not (before now w.expires) || spent_attempts c w)
      (λ _ g. false_true g) (λ free _. ground (arith, free)) h

select_lane-slot :
    (dead : ℕ → Bool) (now : Time) (offsets : List ℕ) (c : Controller) {index : ℕ}
    → (select_lane dead now offsets c).1 ≡ some index
    → (c.lanes index).active < (c.lanes index).slots
unfolding select_lane
select_lane-slot dead now [] c h = cc
select_lane-slot dead now (offset ∷ offsets) c {index} h =
    let here = (c.next_lane + offset) % lane_count in
    let l = c.lanes here in
    let c' = (consider dead now l (head l.queue) c).0 in
    let unchanged : c'.lanes ≡ c.lanes =
      ap (λ d. d.lanes) (Pruned-fields (consider-Pruned dead now l (head l.queue) c)) in
    if_cases
      (λ (r : Controller × Option ℕ).
        r.1 ≡ some index → (c.lanes index).active < (c.lanes index).slots)
      (consider dead now l (head l.queue) c).1
      (λ goes e.
        subst (λ i. (c.lanes i).active < (c.lanes i).slots) (the_same e)
          (consider-slot dead now l (head l.queue) c goes))
      (λ _ e.
        subst (λ lanes. (lanes index).active < (lanes index).slots) unchanged
          (select_lane-slot dead now offsets c' e))
      h
  where
    the_same : {i j : ℕ} → some i ≡ some j → i ≡ j
    the_same e = cc

pub selected-slot :
    (dead : ℕ → Bool) (now : Time) (c : Controller) {index : ℕ}
    → (selected dead now c).1 ≡ some index
    → ((c.lanes index).active < (c.lanes index).slots) × (c.active < c.max_inflight)
unfolding selected
selected-slot dead now c {index} h =
    if_cases
      (λ (r : Controller × Option ℕ).
        r.1 ≡ some index
        → ((c.lanes index).active < (c.lanes index).slots) × (c.active < c.max_inflight))
      (leb c.max_inflight c.active) (λ _ e. none_some e)
      (λ free e. (select_lane-slot dead now lane_offsets c e, ground (arith, free))) h
