-- ===== src/Application/Fills/Places.antt =====
-- Where the callers of internal/application/kline/fill.go are, and the fills that list them.
use market_data.Prelude.{
  ℕ, ◌≡◌, refl, sym, ◌∙◌, subst, ap, arith, Bool, true, false, ◌==◌, if_cases, ltb, leb, ◌||◌,
  length, Bool-cases, inl, inr,
}
use market_data.Errors.{Error, Result, err, upstream_attempt_limit, service_overloaded}
use market_data.Application.Series.{Query}
use market_data.Application.Planner.Loading.{Refreshes}
use market_data.Application.Fills.{
  Settings, Service, Budget, Fill, set, new_service, take_slot, free_slot, join_shared, start_fill,
  attempt, save, complete, leave, stop,
}
use market_data.Application.Fills.Capacity.{join_cases}
use market_data.Application.Fills.Steps.{
  Place, before_join, in_wait, waited, returned, Run, after_join, after_check, Step, Reach, new_run,
}

-- The fill at `p` lists the caller `b`.
abbrev pub Waits : ℕ → ℕ → (ℕ → Fill) → Type 0
Waits b p heap = (heap p).callers b ≡ true

pub record Placed (heap : ℕ → Fill) (budgets : ℕ → Budget) (places : ℕ → Place) : Type 0 where
  pub listed : (b p : ℕ) → Waits b p heap → places b ≡ in_wait p
  pub open_before_join : (b : ℕ) → places b ≡ before_join → (budgets b).exhausted ≡ false

-- A fill lists a caller only while the caller is in the `wait` for it, and a caller that comes to
-- `join` has its channel `exhausted` open.
abbrev pub InPlace : Run → Type 0
InPlace r = Placed r.service.heap r.service.budgets r.places

-- No fill lists the caller, and its channel is open.
abbrev pub Free : ℕ → Service → Type 0
Free b s = ((p : ℕ) → (s.heap p).callers b ≡ false) × ((s.budgets b).exhausted ≡ false)

-- A fill that is written back with no more callers than it had.
pub written_back :
    (p : ℕ) (f : Fill) (heap : ℕ → Fill)
    → ((b : ℕ) → f.callers b ≡ true → (heap p).callers b ≡ true)
    → (b q : ℕ) → Waits b q (set p f heap)
    → Waits b q heap
written_back p f heap subset b q h = elim (Bool-cases (p == q)) [
  | inl here ↦ ground (arith, subset b)
  | inr elsewhere ↦ ground arith
]

elsewhere_idle :
    (heap : ℕ → Fill) (budgets : ℕ → Budget) (places : ℕ → Place) (b p : ℕ) (place : Place)
    → Placed heap budgets places
    → places b ≡ place
    → ¬ (place ≡ in_wait p)
    → (heap p).callers b ≡ false
elsewhere_idle heap budgets places b p place w at other = elim (Bool-cases ((heap p).callers b)) [
  | inl here ↦ absurd (other (sym at ∙ w.listed b p here))
  | inr idle ↦ idle
]

-- The caller `b` goes to another place: no fill lists it there but as the place tells.
moved :
    (heap heap' : ℕ → Fill) (budgets budgets' : ℕ → Budget) (places : ℕ → Place) (b : ℕ)
    (place : Place)
    → ((c p : ℕ) → b == c ≡ false → Waits c p heap' → Waits c p heap)
    → ((p : ℕ) → Waits b p heap' → place ≡ in_wait p)
    → (place ≡ before_join → (budgets' b).exhausted ≡ false)
    → ((c : ℕ) → b == c ≡ false → budgets' c ≡ budgets c)
    → Placed heap budgets places
    → Placed heap' budgets' (set b place places)
moved heap heap' budgets budgets' places b place others here opened kept w = record {
  listed = λ c p h. elim (Bool-cases (b == c)) [
    | inl same ↦
        let e : b ≡ c = ground arith in rw same (here p (subst (λ x. Waits x p heap') (sym e) h))
    | inr other ↦ rw other (w.listed c p (others c p other h))
  ];
  open_before_join = λ c h. elim (Bool-cases (b == c)) [
    | inl same ↦
        let e : b ≡ c = ground arith in
        subst (λ x. (budgets' x).exhausted ≡ false) e (opened (ground arith))
    | inr other ↦ ground (arith, kept c other, w.open_before_join c)
  ];
}

idle_before_join :
    (r : Run) (b : ℕ)
    → InPlace r
    → r.places b ≡ before_join
    → (p : ℕ) → (r.service.heap p).callers b ≡ false
idle_before_join r b w at p =
    elsewhere_idle r.service.heap r.service.budgets r.places b p before_join w at (λ e. cc)

-- A caller that comes to `join` is in no fill.
pub before_join-Free : (r : Run) (b : ℕ) → InPlace r → r.places b ≡ before_join → Free b r.service
before_join-Free r b w at = (idle_before_join r b w at, w.open_before_join b at)

-- The caller `b` is put on the fill at `p`, and waits for it.
listed-Placed :
    (p b : ℕ) (f : Fill) (heap : ℕ → Fill) (budgets budgets' : ℕ → Budget) (places : ℕ → Place)
    → ((i : ℕ) → (heap i).callers b ≡ false)
    → ((c : ℕ) → b == c ≡ false → f.callers c ≡ true → (heap p).callers c ≡ true)
    → ((c : ℕ) → b == c ≡ false → budgets' c ≡ budgets c)
    → Placed heap budgets places
    → Placed (set p f heap) budgets' (set b (in_wait p) places)
listed-Placed p b f heap budgets budgets' places idle others kept w =
    moved heap (set p f heap) budgets budgets' places b (in_wait p)
      (λ c i other h. elim (Bool-cases (p == i)) [
        | inl here ↦ ground (arith, others c other)
        | inr elsewhere ↦ ground arith
      ])
      (λ i h. elim (Bool-cases (p == i)) [
        | inl here ↦ let e : p ≡ i = ground arith in ap in_wait e
        | inr elsewhere ↦ ground (arith, idle i)
      ])
      (λ e. cc) kept w

module _ (r : Run) (w : InPlace r) where
  -- `join` fails: `Get` returns.
  refused-InPlace :
      (b : ℕ) (e : Error)
      → r.places b ≡ before_join
      → InPlace (after_join b r.places (err e, r.service))
  refused-InPlace b e at =
      moved r.service.heap r.service.heap r.service.budgets r.service.budgets r.places b returned
        (λ c i other h. h) (λ i h. ground (arith, idle_before_join r b w at i)) (λ e. cc)
        (λ c other. refl) w

  shared-InPlace :
      (q : Query) (p b : ℕ)
      → r.places b ≡ before_join
      → InPlace (after_join b r.places (join_shared q p b r.service))
  unfolding join_shared
  shared-InPlace q p b at =
      if_cases (λ (x : Result ℕ × Service). InPlace (after_join b r.places x))
        (ltb (r.service.budgets b).remaining (r.service.heap p).attempts)
        (λ over. refused-InPlace b upstream_attempt_limit at)
        (λ fits.
          listed-Placed p b _ r.service.heap r.service.budgets _ r.places
            (idle_before_join r b w at) (λ c other h. ground arith) (λ c other. ground arith) w)

  started-InPlace :
      (q : Query) (refreshed : Refreshes) (b : ℕ)
      → r.places b ≡ before_join
      → InPlace (after_join b r.places (start_fill q refreshed b r.service))
  unfolding start_fill
  started-InPlace q refreshed b at =
      if_cases (λ (x : Result ℕ × Service). InPlace (after_join b r.places x))
        (leb r.service.settings.max_active_fills (length r.service.fills)
          || leb r.service.settings.max_active_fills_per_exchange (r.service.active q.exchange))
        (λ full. refused-InPlace b service_overloaded at)
        (λ room.
          listed-Placed r.service.allocated b _ r.service.heap r.service.budgets _ r.places
            (idle_before_join r b w at) (λ c other h. ground arith) (λ c other. refl) w)

  attempt-InPlace : (q : Query) (p : ℕ) → InPlace (record r { service = attempt q p r.service })
  unfolding attempt
  attempt-InPlace q p = record {
    listed = λ b i h. w.listed b i (written_back p _ r.service.heap (λ c k. ground arith) b i h);
    open_before_join = λ b at. ground (arith, idle_before_join r b w at p, w.open_before_join b at);
  }

  leave-InPlace :
      (b p : ℕ)
      → r.places b ≡ in_wait p
      → InPlace (record { service = leave b p r.service; places = set b waited r.places })
  unfolding leave
  leave-InPlace b p at =
      moved r.service.heap _ r.service.budgets r.service.budgets r.places b waited
        (λ c i other h. written_back p _ r.service.heap (λ d k. ground arith) c i h)
        (λ i h. gone i h) (λ e. cc) (λ c other. refl) w
    where
      gone : (i : ℕ) → Waits b i (leave b p r.service).heap → waited ≡ in_wait i
      gone i h = elim (Bool-cases (p == i)) [
        | inl here ↦ ground arith
        | inr elsewhere ↦
            let same_place : in_wait p ≡ in_wait i = sym at ∙ w.listed b i (ground arith) in
            let same : p ≡ i = cc in ground arith
      ]

  check-InPlace :
      (b : ℕ)
      → r.places b ≡ waited
      → InPlace (record r { places = set b (after_check (r.service.budgets b).exhausted) r.places })
  check-InPlace b at =
      moved r.service.heap r.service.heap r.service.budgets r.service.budgets r.places b _
        (λ c i other h. h)
        (λ i h.
          let idle =
            elsewhere_idle r.service.heap r.service.budgets r.places b i waited w at (λ e. cc) in
          ground arith)
        (λ e. opened (r.service.budgets b).exhausted e) (λ c other. refl) w
    where
      opened : (x : Bool) → after_check x ≡ before_join → x ≡ false
      opened true e = cc
      opened false e = refl

  written-InPlace :
      (p : ℕ) (f : Fill)
      → ((b : ℕ) → f.callers b ≡ true → (r.service.heap p).callers b ≡ true)
      → Placed (set p f r.service.heap) r.service.budgets r.places
  written-InPlace p f subset = record {
    listed = λ b i h. w.listed b i (written_back p f r.service.heap subset b i h);
    open_before_join = w.open_before_join;
  }

Step-InPlace : {r r' : Run} → Step r r' → InPlace r → InPlace r'
unfolding take_slot free_slot save complete stop
Step-InPlace {r} Step.takes_slot w =
    if_cases (λ (x : Result (Unit {0}) × Service). InPlace (record r { service = x.1 }))
      (ltb r.service.callers r.service.settings.max_callers) (λ room. w) (λ full. w)
Step-InPlace (Step.frees_slot h) w = w
Step-InPlace {r} (Step.joins failure q refreshed b at) w =
    join_cases (λ x. InPlace (after_join b r.places x)) failure q refreshed b r.service
      (λ e. refused-InPlace r w b e at) (λ p found. shared-InPlace r w q p b at)
      (λ absent. started-InPlace r w q refreshed b at)
Step-InPlace {r} (Step.dispatches q p runs) w = attempt-InPlace r w q p
Step-InPlace {r} (Step.saves q p updated runs) w = written-InPlace r w p _ (λ c h. h)
Step-InPlace {r} (Step.completes failure q p runs) w = written-InPlace r w p _ (λ c h. h)
Step-InPlace {r} (Step.leaves b p at) w = leave-InPlace r w b p at
Step-InPlace {r} (Step.checks b at) w = check-InPlace r w b at
Step-InPlace Step.stops w = w

pub Reach-InPlace : (limits : Settings) (r : Run) → Reach (new_run limits) r → InPlace r
unfolding new_service
Reach-InPlace limits _ Reach.begins = record {
  listed = λ b p h. cc;
  open_before_join = λ b at. refl;
}
Reach-InPlace limits r (Reach.continues {r'} before step) =
    Step-InPlace step (Reach-InPlace limits r' before)
