-- ===== src/Application/Fills/Callers.antt =====
-- The budgets of the callers of internal/application/kline/fill.go: the attempts that a caller
-- sees.
use market_data.Prelude.{
  ℕ, suc, ◌+◌, ◌≤◌, ◌≡◌, refl, sym, ◌∙◌, subst, arith, Bool, true, false, ◌==◌, Option, if_cases,
  if◌then◌else◌, ltb, leb, ◌||◌, length, ◌⊎◌, Bool-cases, inl, inr,
}
use market_data.Errors.{Error, Result, err, ok}
use market_data.Application.Series.{Query}
use market_data.Application.Planner.Loading.{Refreshes}
use market_data.Application.Fills.{
  Settings, Service, Budget, Fill, set, new_service, take_slot, free_slot, join_shared, start_fill,
  join, attempt, save, complete, leave, stop,
}
use market_data.Application.Fills.Capacity.{join_cases, after_join-service}
use market_data.Application.Fills.Steps.{Run, Step, Reach, new_run}
use market_data.Application.Fills.Places.{
  Waits, InPlace, Free, written_back, before_join-Free, Reach-InPlace,
}

pub record Waiting (heap : ℕ → Fill) (budgets : ℕ → Budget) : Type 0 where
  pub exclusive : (b p p' : ℕ) → Waits b p heap → Waits b p' heap → p ≡ p'
  pub open_ended : (b p : ℕ) → Waits b p heap → (budgets b).exhausted ≡ false
  pub empty : (b : ℕ) → (budgets b).exhausted ≡ true → (budgets b).remaining ≡ 0

-- Each caller waits for one fill at most, its channel `exhausted` is not closed while it waits, and
-- closes when nothing remains.
abbrev pub Callers : Service → Type 0
Callers s = Waiting s.heap s.budgets

abbrev bit : Bool → ℕ
bit true = 1
bit false = 0

-- The attempts of the fill that a `join` gives, at that time.
abbrev joined : Result ℕ × Service → ℕ
joined (err e, t) = 0
joined (ok p, t) = (t.heap p).attempts

-- The attempts that a step lets the caller `c` see: those of the fill that it joins, and those of
-- its fill while it waits.
unfoldable pub seen_by : (c : ℕ) {r r' : Run} → Step r r' → ℕ
seen_by c Step.takes_slot = 0
seen_by c (Step.frees_slot h) = 0
seen_by c {r} (Step.joins failure q refreshed b at) =
    if b == c then joined (join failure q refreshed b r.service) else 0
seen_by c {r} (Step.dispatches q p runs) = bit ((r.service.heap p).callers c)
seen_by c (Step.saves q p updated runs) = 0
seen_by c (Step.completes failure q p runs) = 0
seen_by c (Step.leaves b p at) = 0
seen_by c (Step.checks b at) = 0
seen_by c Step.stops = 0

unfoldable pub seen : (c : ℕ) {r r' : Run} → Reach r r' → ℕ
unfolding seen_by
seen c Reach.begins = 0
seen c (Reach.continues before step) = seen c before + seen_by c step

narrow :
    (heap heap' : ℕ → Fill) (budgets : ℕ → Budget)
    → ((b p : ℕ) → Waits b p heap' → Waits b p heap)
    → Waiting heap budgets
    → Waiting heap' budgets
narrow heap heap' budgets subset w = record {
  exclusive = λ b p p' h k. w.exclusive b p p' (subset b p h) (subset b p' k);
  open_ended = λ b p h. w.open_ended b p (subset b p h);
  empty = w.empty;
}

module _ (s : Service) (w : Callers s) where
  attempt-Callers : (q : Query) (p : ℕ) → Callers (attempt q p s)
  unfolding attempt
  attempt-Callers q p = record {
    exclusive = λ b i j h k. w.exclusive b i j (before b i h) (before b j k);
    open_ended = λ b i h. still b i h (Bool-cases ((s.heap p).callers b));
    empty = λ b h. spent b h (Bool-cases ((s.heap p).callers b));
  }
    where
      before : (b i : ℕ) → Waits b i (attempt q p s).heap → Waits b i s.heap
      before = written_back p _ s.heap (λ b h. ground arith)

      still :
          (b i : ℕ)
          → Waits b i (attempt q p s).heap
          → ((s.heap p).callers b ≡ true) ⊎ ((s.heap p).callers b ≡ false)
          → ((attempt q p s).budgets b).exhausted ≡ false
      still b i h (inl waits) =
          let same : i ≡ p = w.exclusive b i p (before b i h) waits in
          let here : Waits b p (attempt q p s).heap =
            subst (λ j. Waits b j (attempt q p s).heap) same h in
          ground (arith, w.open_ended b p waits, here)
      still b i h (inr idle) = ground (arith, w.open_ended b i (before b i h))

      spent :
          (b : ℕ)
          → ((attempt q p s).budgets b).exhausted ≡ true
          → ((s.heap p).callers b ≡ true) ⊎ ((s.heap p).callers b ≡ false)
          → ((attempt q p s).budgets b).remaining ≡ 0
      spent b h (inl waits) = ground (arith, w.open_ended b p waits)
      spent b h (inr idle) = ground (arith, w.empty b)

  -- The fill at `p` has the caller `b` too, which waited for none, and only the budget of
  -- `b` may have changed, with its channel open.
  add-Callers :
      (p b : ℕ) (f : Fill) (budgets : ℕ → Budget)
      → Free b s
      → ((c : ℕ) → b == c ≡ false → f.callers c ≡ true → (s.heap p).callers c ≡ true)
      → ((c : ℕ) → b == c ≡ false → budgets c ≡ s.budgets c)
      → (budgets b).exhausted ≡ false
      → Waiting (set p f s.heap) budgets
  add-Callers p b f budgets free others same open_budget = record {
    exclusive = λ c i j h k. elim (Bool-cases (b == c)) [
      | inl joined_now ↦ at c i h joined_now ∙ sym (at c j k joined_now)
      | inr other ↦ w.exclusive c i j (before c i h other) (before c j k other)
    ];
    open_ended = λ c i h. elim (Bool-cases (b == c)) [
      | inl joined_now ↦ ground arith
      | inr other ↦ ground (arith, same c other, w.open_ended c i (before c i h other))
    ];
    empty = λ c h. elim (Bool-cases (b == c)) [
      | inl joined_now ↦ ground arith
      | inr other ↦ ground (arith, same c other, w.empty c)
    ];
  }
    where
      before : (c i : ℕ) → Waits c i (set p f s.heap) → b == c ≡ false → Waits c i s.heap
      before c i h other = elim (Bool-cases (p == i)) [
        | inl here ↦ ground (arith, others c other)
        | inr elsewhere ↦ ground arith
      ]

      at : (c i : ℕ) → Waits c i (set p f s.heap) → b == c ≡ true → i ≡ p
      at c i h joined_now = elim (Bool-cases (p == i)) [
        | inl here ↦ ground arith
        | inr elsewhere ↦ ground (arith, free.0 i)
      ]

  join_shared-Callers : (q : Query) (p b : ℕ) → Free b s → Callers (join_shared q p b s).1
  unfolding join_shared
  join_shared-Callers q p b free =
      if_cases (λ (r : Result ℕ × Service). Callers r.1)
        (ltb (s.budgets b).remaining (s.heap p).attempts) (λ over. w)
        (λ fits.
          add-Callers p b _ _ free (λ c other h. ground arith) (λ c other. ground arith)
            (ground arith))

  start_fill-Callers :
      (q : Query) (refreshed : Refreshes) (b : ℕ)
      → Free b s
      → Callers (start_fill q refreshed b s).1
  unfolding start_fill
  start_fill-Callers q refreshed b free =
      if_cases (λ (r : Result ℕ × Service). Callers r.1)
        (leb s.settings.max_active_fills (length s.fills)
          || leb s.settings.max_active_fills_per_exchange (s.active q.exchange))
        (λ full. w)
        (λ room.
          add-Callers s.allocated b _ s.budgets free (λ c other h. ground arith) (λ c other. refl)
            free.1)

  join-Callers :
      (failure : Option Error) (q : Query) (refreshed : Refreshes) (b : ℕ)
      → Free b s
      → Callers (join failure q refreshed b s).1
  join-Callers failure q refreshed b free =
      join_cases (λ r. Callers r.1) failure q refreshed b s (λ e. w)
        (λ p found. join_shared-Callers q p b free)
        (λ absent. start_fill-Callers q refreshed b free)

-- How a budget and the attempts seen change together.
abbrev Paid : ℕ → Budget → Budget → Type 0
Paid n before after =
    n + after.remaining + bit before.exhausted ≡ before.remaining + bit after.exhausted

module _ (s : Service) (w : Callers s) (c : ℕ) where
  shared-Paid :
      (q : Query) (b p : ℕ)
      → Paid
          (if b == c then joined (join_shared q p b s) else 0)
          (s.budgets c)
          ((join_shared q p b s).1.budgets c)
  unfolding join_shared
  shared-Paid q b p = ground arith

  started-Paid :
      (q : Query) (refreshed : Refreshes) (b : ℕ)
      → Paid
          (if b == c then joined (start_fill q refreshed b s) else 0)
          (s.budgets c)
          ((start_fill q refreshed b s).1.budgets c)
  unfolding start_fill
  started-Paid q refreshed b = ground arith

  join-Paid :
      (failure : Option Error) (q : Query) (refreshed : Refreshes) (b : ℕ)
      → Paid
          (if b == c then joined (join failure q refreshed b s) else 0)
          (s.budgets c)
          ((join failure q refreshed b s).1.budgets c)
  join-Paid failure q refreshed b =
      join_cases (λ r. Paid (if b == c then joined r else 0) (s.budgets c) (r.1.budgets c)) failure
        q refreshed b s (λ e. ground arith) (λ p found. shared-Paid q b p)
        (λ absent. started-Paid q refreshed b)

  attempt-Paid :
      (q : Query) (p : ℕ)
      → Paid (bit ((s.heap p).callers c)) (s.budgets c) ((attempt q p s).budgets c)
  unfolding attempt
  attempt-Paid q p = ground (arith, w.open_ended c p)

Step-Callers : {r r' : Run} → Step r r' → InPlace r → Callers r.service → Callers r'.service
unfolding take_slot free_slot save complete leave stop
Step-Callers {r} Step.takes_slot i w =
    if_cases (λ (x : Result (Unit {0}) × Service). Callers x.1)
      (ltb r.service.callers r.service.settings.max_callers) (λ room. w) (λ full. w)
Step-Callers (Step.frees_slot h) i w = w
Step-Callers {r} (Step.joins failure q refreshed b at) i w =
    subst Callers (sym (after_join-service b r.places (join failure q refreshed b r.service)))
      (join-Callers r.service w failure q refreshed b (before_join-Free r b i at))
Step-Callers {r} (Step.dispatches q p runs) i w = attempt-Callers r.service w q p
Step-Callers {r} (Step.saves q p updated runs) i w =
    narrow r.service.heap _ r.service.budgets (written_back p _ r.service.heap (λ c h. h)) w
Step-Callers {r} (Step.completes failure q p runs) i w =
    narrow r.service.heap _ r.service.budgets (written_back p _ r.service.heap (λ c h. h)) w
Step-Callers {r} (Step.leaves b p at) i w =
    narrow r.service.heap _ r.service.budgets
      (written_back p _ r.service.heap (λ c h. ground arith)) w
Step-Callers (Step.checks b at) i w = w
Step-Callers Step.stops i w = w

Step-Paid :
    (c : ℕ) {r r' : Run} (step : Step r r')
    → Callers r.service
    → Paid (seen_by c step) (r.service.budgets c) (r'.service.budgets c)
unfolding take_slot free_slot save complete leave stop seen_by
Step-Paid c {r} Step.takes_slot w =
    if_cases (λ (x : Result (Unit {0}) × Service). Paid 0 (r.service.budgets c) (x.1.budgets c))
      (ltb r.service.callers r.service.settings.max_callers) (λ room. omega arith)
      (λ full. omega arith)
Step-Paid c (Step.frees_slot h) w = omega arith
Step-Paid c {r} (Step.joins failure q refreshed b at) w =
    subst
      (λ s.
        Paid (if b == c then joined (join failure q refreshed b r.service) else 0)
          (r.service.budgets c) (s.budgets c))
      (sym (after_join-service b r.places (join failure q refreshed b r.service)))
      (join-Paid r.service w c failure q refreshed b)
Step-Paid c {r} (Step.dispatches q p runs) w = attempt-Paid r.service w c q p
Step-Paid c (Step.saves q p updated runs) w = omega arith
Step-Paid c (Step.completes failure q p runs) w = omega arith
Step-Paid c (Step.leaves b p at) w = omega arith
Step-Paid c (Step.checks b at) w = omega arith
Step-Paid c Step.stops w = omega arith

Reach-Waiting : (limits : Settings) (r : Run) → Reach (new_run limits) r → Callers r.service
unfolding new_service
Reach-Waiting limits _ Reach.begins = record {
  exclusive = λ b p p' h k. absurd h;
  open_ended = λ b p h. refl;
  empty = λ b h. absurd h;
}
  where
    absurd : {A : Type 0} → false ≡ true → A
    absurd h = cc
Reach-Waiting limits r (Reach.continues {r'} before step) =
    Step-Callers step (Reach-InPlace limits r' before) (Reach-Waiting limits r' before)

-- However the calls of `Get` and the fills of a service interleave, a fill lists a caller only
-- while the caller is in the `wait` for that fill, so a caller is in one fill at most, and in none
-- when it comes to `join` or has returned. The channel `exhausted` of a caller that a fill lists is
-- open, so no attempt closes it twice, as is that of a caller that comes to `join`; and nothing
-- remains in a budget whose channel is closed.
pub Reach-Callers :
    (limits : Settings) (r : Run) → Reach (new_run limits) r → Callers r.service × InPlace r
Reach-Callers limits r run = (Reach-Waiting limits r run, Reach-InPlace limits r run)

Reach-Paid :
    (limits : Settings) (r : Run) (run : Reach (new_run limits) r) (c : ℕ)
    → seen c run + (r.service.budgets c).remaining
      ≡ limits.max_attempts + bit (r.service.budgets c).exhausted
unfolding new_service seen
Reach-Paid limits _ Reach.begins c = omega arith
Reach-Paid limits r (Reach.continues {r'} before step) c =
    omega (arith, Reach-Paid limits r' before c, Step-Paid c step (Reach-Waiting limits r' before))

-- A caller of the service sees at most one attempt more than `MaxAttempts`, over all the fills that
-- it waits for, and its budget is exhausted exactly when it has seen that one: the attempts of a
-- fill before the caller joins it count, and those after the caller leaves do not.
pub Reach-seen :
    (limits : Settings) (r : Run) (run : Reach (new_run limits) r) (c : ℕ)
    → (seen c run ≤ suc limits.max_attempts)
      × ((r.service.budgets c).exhausted ≡ (seen c run == suc limits.max_attempts))
Reach-seen limits r run c =
    ground (arith, Reach-Paid limits r run c, (Reach-Waiting limits r run).empty c)
