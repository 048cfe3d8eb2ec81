-- ===== src/Application/Service.antt =====
-- internal/application/kline/service.go and internal/application/kline/fill.go: what a fill does
-- (`load`) and what a caller does in a round of `Get`. `Outside` is what these call: the clock, the
-- contexts, the storage and the provider of the query's scope, and the state that other goroutines
-- change in between (W). The operations on
-- fills that a round calls are those of Application/Fills.
pub mod Load
pub mod Complete
pub mod Ends
pub mod Round
pub mod Checks
pub mod Slots
mod Tests
use market_data.Prelude.{ℕ, Option, none, some, List, [], ◌∷◌}
use market_data.Errors.{Error, Result, err, ok}
use market_data.Domain.Time.{Time}
use market_data.Application.Series.{Query, Request, Stored}
use market_data.Application.Context.{failed_if}
use market_data.Application.Fills.{Event}
use market_data.Application.Planner.{Planner, validate}
use market_data.Application.Planner.Loading.{Refreshes, plan}

-- `failed` is `contextError`, `observe` is `emit`, and `attempts` reads the counter of the fill.
pub record Outside (W D : Type 0) : Type 0 where
  pub failed : W → Option Error × W
  pub clock : W → Time × W
  pub get_range : Query → W → Result (List (Stored D)) × W
  pub upsert_many : List (Stored D) → W → Result (Unit {0}) × W
  pub get_klines : Request → W → Result (List (Stored D)) × W
  pub observe : Event → W → W
  pub attempts : W → ℕ

-- The rest of a function after a call, unless that failed.
infixl 5 ◌then◌
abbrev pub ◌then◌ {ℓ} :
    {W A : Type 0} {B : Type ℓ} → Result A × W → (A → W → Result B × W) → Result B × W
(err e, w) then rest = (err e, w)
(ok a, w) then rest = rest a w

abbrev pub forget : {A : Type 0} → Result A → Result (Unit {0})
forget (err e) = err e
forget (ok a) = ok tt

module _ {W D : Type 0} (out : Outside W D) where
  -- `if err := s.contextError(ctx); err != nil { return err }`.
  abbrev pub alive : W → Result (Unit {0}) × W
  alive w = (failed_if (out.failed w).0, (out.failed w).1)

  -- `planner.Validate(query, s.now())`.
  abbrev pub valid_now : Planner → Query → W → Result Time × W
  valid_now p q w = elim (validate p q (out.clock w).0) as (λ r. Result Time × W) [
    | err e ↦ (err e, (out.clock w).1)
    | ok accepted ↦ (ok (out.clock w).0, (out.clock w).1)
  ]

  abbrev with_rows :
      List (Stored D) → Result (List Request) → Result (List (Stored D) × List Request)
  with_rows rows (err e) = err e
  with_rows rows (ok requests) = ok (rows, requests)

  unfoldable pub read :
      Planner → Query → Refreshes → W → Result (List (Stored D) × List Request) × W
  unfolding validate plan
  read p q refreshed w = alive w then λ _ w1. valid_now p q w1 then λ now w2.
      out.get_range q w2 then λ rows w3.
      alive w3 then λ _ w4. (with_rows rows (plan p q rows now refreshed), w4)
