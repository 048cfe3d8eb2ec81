-- ===== src/Application/Fills/Capacity.antt =====
-- How many fills and callers the kline service of internal/application/kline/service.go and fill.go
-- has at a time.
use market_data.Prelude.{
  ℕ, suc, ◌+◌, ◌-◌, ◌≤◌, ◌<◌, ◌≡◌, refl, sym, subst, ◌∙◌, arith, Option, none, some, length, ite,
  if_cases, ltb, leb, ◌||◌,
}
use mathlib.Core.Path.{ap}
use market_data.Prelude.Map.{Map, get, Unique, put-Unique, delete-Unique}
use market_data.Prelude.Weights.{weigh, length-put, length-delete, weigh-put, weigh-delete}
use market_data.Errors.{Error, Result, ok, err, canceled}
use market_data.Domain.Names.{Exchange, Exchange-discrete}
use market_data.Application.Series.{Series, Query, Series-discrete}
use market_data.Application.Planner.Loading.{Refreshes}
use market_data.Application.Fills.{
  Settings, Service, set_active, new_service, take_slot, free_slot, join_shared, start_fill, join,
  attempt, save, complete, leave, stop,
}
use market_data.Application.Fills.Steps.{Place, Run, after_join, Step, Reach, Runs, new_run}

-- 1 for a series of the exchange.
abbrev pub one_of : Exchange → Series → ℕ
one_of e k = ite (Exchange-discrete k.exchange e) 1 0

-- The fills of an exchange.
abbrev pub running : Exchange → Map Series ℕ → ℕ
running e m = weigh (one_of e) m

pub record Counts (limits : Settings) (callers : ℕ) (fills : Map Series ℕ) (active : Exchange → ℕ)
    : Type 0 where
  pub slots : callers ≤ limits.max_callers
  pub unique : Unique fills
  pub bounded : length fills ≤ limits.max_active_fills
  pub counted : (e : Exchange) → active e ≡ running e fills
  pub capped : (e : Exchange) → active e ≤ limits.max_active_fills_per_exchange

-- Fills run for distinct series, `active` counts the fills of each exchange, and neither the fills
-- nor the callers exceed their limits.
abbrev pub Capacity : Service → Type 0
Capacity s = Counts s.settings s.callers s.fills s.active

module _ (k : Series) (active : Exchange → ℕ) (e : Exchange) where
  set_active_up : set_active k.exchange (suc (active k.exchange)) active e ≡ active e + one_of e k
  unfolding set_active
  set_active_up =
      elim (Exchange-discrete k.exchange e)
        as (λ d. ite d (suc (active k.exchange)) (active e) ≡ active e + ite d 1 0) [
          | yes same ↦ omega (arith, ap active same)
          | no other ↦ omega arith
        ]

  set_active_down :
      0 < active k.exchange
      → set_active k.exchange (active k.exchange - 1) active e + one_of e k ≡ active e
  unfolding set_active
  set_active_down h =
      elim (Exchange-discrete k.exchange e)
        as (λ d. ite d (active k.exchange - 1) (active e) + ite d 1 0 ≡ active e) [
          | yes same ↦ omega (arith, ap active same)
          | no other ↦ omega arith
        ]

  set_active_le :
      (n limit : ℕ) → n ≤ limit → active e ≤ limit → set_active k.exchange n active e ≤ limit
  unfolding set_active
  set_active_le n limit h l =
      elim (Exchange-discrete k.exchange e) as (λ d. ite d n (active e) ≤ limit) [
        | yes same ↦ h
        | no other ↦ l
      ]

one_of_self : (k : Series) → one_of k.exchange k ≡ 1
one_of_self k = ground arith

-- What holds of each branch of a `join` holds of the `join`.
pub join_cases :
    (P : Result ℕ × Service → Type 0) (failure : Option Error) (q : Query) (refreshed : Refreshes)
    (b : ℕ) (s : Service)
    → ((e : Error) → P (err e, s))
    → ((p : ℕ) → get Series-discrete q.series s.fills ≡ some p → P (join_shared q p b s))
    → (get Series-discrete q.series s.fills ≡ none → P (start_fill q refreshed b s))
    → P (join failure q refreshed b s)
unfolding join
join_cases P failure q refreshed b s kept shared started =
    if_cases P s.stopped (λ down. kept canceled) (λ up. living failure)
  where
    found :
        (o : Option ℕ)
        → get Series-discrete q.series s.fills ≡ o
        → P (elim o as (λ x. Result ℕ × Service) [
          | some p ↦ join_shared q p b s
          | none ↦ start_fill q refreshed b s
        ])
    found none e = started e
    found (some p) e = shared p e

    living :
        (f : Option Error)
        → P (elim f as (λ x. Result ℕ × Service) [
          | some e ↦ (err e, s)
          | none ↦ elim (get Series-discrete q.series s.fills) as (λ x. Result ℕ × Service) [
            | some p ↦ join_shared q p b s
            | none ↦ start_fill q refreshed b s
          ]
        ])
    living (some e) = kept e
    living none = found (get Series-discrete q.series s.fills) refl

module _ (s : Service) (c : Capacity s) where
  start_fill-Capacity :
      (q : Query) (refreshed : Refreshes) (b : ℕ)
      → get Series-discrete q.series s.fills ≡ none
      → Capacity (start_fill q refreshed b s).1
  unfolding start_fill
  start_fill-Capacity q refreshed b absent =
      if_cases (λ (r : Result ℕ × Service). Capacity r.1)
        (leb s.settings.max_active_fills (length s.fills)
          || leb s.settings.max_active_fills_per_exchange (s.active q.exchange))
        (λ full. c)
        (λ room. record {
          slots = c.slots;
          unique = put-Unique Series-discrete q.series s.allocated s.fills c.unique;
          bounded =
              ground (arith, length-put Series-discrete q.series s.allocated s.fills absent, room);
          counted = λ e.
              set_active_up q.series s.active e
              ∙ omega (
                arith,
                c.counted e,
                weigh-put Series-discrete (one_of e) q.series s.allocated s.fills absent,
              );
          capped = λ e.
              set_active_le q.series s.active e (suc (s.active q.exchange))
                s.settings.max_active_fills_per_exchange (ground (arith, room)) (c.capped e);
        })

  running_some : (q : Query) (p : ℕ) → Runs q p s → 0 < s.active q.exchange
  running_some q p runs = omega (
    arith,
    c.counted q.exchange,
    one_of_self q.series,
    weigh-delete Series-discrete (one_of q.exchange) q.series p s.fills c.unique runs,
  )

  complete-Capacity :
      (failure : Option Error) (q : Query) (p : ℕ) → Runs q p s → Capacity (complete failure q p s)
  unfolding complete
  complete-Capacity failure q p runs = record {
    slots = c.slots;
    unique = delete-Unique Series-discrete q.series s.fills c.unique;
    bounded = omega (arith, c.bounded, length-delete Series-discrete q.series s.fills);
    counted = λ e. omega (
      arith,
      c.counted e,
      set_active_down q.series s.active e (running_some q p runs),
      weigh-delete Series-discrete (one_of e) q.series p s.fills c.unique runs,
    );
    capped = λ e.
        set_active_le q.series s.active e (s.active q.exchange - 1)
          s.settings.max_active_fills_per_exchange (omega (arith, c.capped q.exchange))
          (c.capped e);
  }

  take_slot-Capacity : Capacity (take_slot s).1
  unfolding take_slot
  take_slot-Capacity =
      if_cases (λ (r : Result (Unit {0}) × Service). Capacity r.1)
        (ltb s.callers s.settings.max_callers)
        (λ room. record {
          slots = ground (arith, room);
          unique = c.unique;
          bounded = c.bounded;
          counted = c.counted;
          capped = c.capped;
        })
        (λ full. c)

  join_shared-Capacity : (q : Query) (p b : ℕ) → Capacity (join_shared q p b s).1
  unfolding join_shared
  join_shared-Capacity q p b =
      if_cases (λ (r : Result ℕ × Service). Capacity r.1)
        (ltb (s.budgets b).remaining (s.heap p).attempts) (λ over. c) (λ fits. c)

  join-Capacity :
      (failure : Option Error) (q : Query) (refreshed : Refreshes) (b : ℕ)
      → Capacity (join failure q refreshed b s).1
  join-Capacity failure q refreshed b =
      join_cases (λ r. Capacity r.1) failure q refreshed b s (λ e. c)
        (λ p found. join_shared-Capacity q p b) (start_fill-Capacity q refreshed b)

-- What `join` answers tells only where its caller goes.
pub after_join-service :
    (b : ℕ) (places : ℕ → Place) (x : Result ℕ × Service) → (after_join b places x).service ≡ x.1
after_join-service b places (err e, s) = refl
after_join-service b places (ok p, s) = refl

pub new_service-Capacity : (limits : Settings) → Capacity (new_service limits)
unfolding new_service weigh
new_service-Capacity limits = record {
  slots = omega arith;
  unique = tt;
  bounded = omega arith;
  counted = λ e. refl;
  capped = λ e. omega arith;
}

Step-Capacity : {r r' : Run} → Step r r' → Capacity r.service → Capacity r'.service
unfolding free_slot attempt save leave stop
Step-Capacity {r} Step.takes_slot c = take_slot-Capacity r.service c
Step-Capacity (Step.frees_slot h) c = record {
  slots = omega (arith, c.slots);
  unique = c.unique;
  bounded = c.bounded;
  counted = c.counted;
  capped = c.capped;
}
Step-Capacity {r} (Step.joins failure q refreshed b at) c =
    subst Capacity (sym (after_join-service b r.places (join failure q refreshed b r.service)))
      (join-Capacity r.service c failure q refreshed b)
Step-Capacity (Step.dispatches q p runs) c = c
Step-Capacity (Step.saves q p updated runs) c = c
Step-Capacity {r} (Step.completes failure q p runs) c =
    complete-Capacity r.service c failure q p runs
Step-Capacity (Step.leaves b p at) c = c
Step-Capacity (Step.checks b at) c = c
Step-Capacity Step.stops c = c

-- However its callers and fills interleave, the service started by `NewService` never has more
-- than `MaxCallers` callers, more than `MaxActiveFills` fills or, on one exchange, more than
-- `MaxActiveFillsPerExchange` fills; the fills are for distinct series, and `active` is their
-- number on each exchange.
pub Reach-Capacity : (limits : Settings) (r : Run) → Reach (new_run limits) r → Capacity r.service
Reach-Capacity limits _ Reach.begins = new_service-Capacity limits
Reach-Capacity limits r (Reach.continues {r'} before step) =
    Step-Capacity step (Reach-Capacity limits r' before)
