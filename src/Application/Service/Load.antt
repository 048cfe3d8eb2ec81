-- ===== src/Application/Service/Load.antt =====
-- `load` of internal/application/kline/fill.go.
use market_data.Prelude.{
  ℕ, zero, suc, ◌-◌, Bool, false, not, ltb, Option, none, some, List, [], ◌∷◌, length,
  if◌then◌else◌,
}
use market_data.Errors.{Result, err, ok, upstream_attempt_limit, incomplete_data}
use market_data.Application.Series.{Query, Request, Stored}
use market_data.Application.Planner.{Planner, validate}
use market_data.Application.Planner.Loading.{Refreshes}
use market_data.Application.Refreshes.{merge, made_progress}
use market_data.Application.Fills.{downloaded}
use market_data.Application.Service.{Outside, ◌then◌, valid_now, read}

-- The fill's evidence, next to the outside.
pub record Loading (W : Type 0) : Type 0 where
  pub world : W
  pub refreshed : Refreshes
  pub saved : Refreshes

abbrev pub updated : {D : Type 0} → Stored D → Refreshes
updated row =
    (
      row.candle.open_time,
      record { started = row.request_started_at; fetched = row.candle.fetched_at },
    )
    ∷ []

unfoldable pub gather : {D W : Type 0} → Query → List (Stored D) → Loading W → Loading W
unfolding merge
gather q [] s = s
gather q (row ∷ page) s = gather q page (record s {
  refreshed = merge q (updated row) s.refreshed;
  saved = merge q (updated row) s.saved;
})

abbrev pub lifted : {W A : Type 0} → Loading W → Result A × W → Result A × Loading W
lifted s (r, w) = (r, record s { world = w })

infixl 5 ◌unless_failed◌
-- What follows a turn, unless it failed.
abbrev pub ◌unless_failed◌ :
    {S A : Type 0}
    → Result A × S
    → (A → S → Option (Result (Unit {0}) × S))
    → Option (Result (Unit {0}) × S)
(err e, s) unless_failed rest = some (err e, s)
(ok a, s) unless_failed rest = rest a s

module _ {W D : Type 0} (out : Outside W D) where
  -- The body of the loop over the plan, and the loop.
  unfoldable pub load_page : Planner → Query → Request → Loading W → Result (Unit {0}) × Loading W
  unfolding validate gather
  load_page p q request s = lifted s (valid_now out p q s.world) then λ _ s1.
      lifted s1 (out.get_klines request s1.world) then λ page s2.
      lifted s2 (out.upsert_many page (out.observe (downloaded q.scope (length page)) s2.world))
      then λ _ s3. (ok tt, gather q page s3)

  unfoldable pub load_pages :
      Planner → Query → List Request → Loading W → Result (Unit {0}) × Loading W
  unfolding load_page
  load_pages p q [] s = (ok tt, s)
  load_pages p q (request ∷ requests) s =
      load_page p q request s then λ _ s1. load_pages p q requests s1

  abbrev pub read_again :
      Planner → Query → Loading W → Result (List (Stored D) × List Request) × Loading W
  read_again p q s = lifted s (read out p q s.refreshed s.world)

  -- `madeProgress` is asked where the plan is not empty.
  abbrev pub stalled : List (Stored D) → List (Stored D) → List Request → Bool
  stalled previous rows [] = false
  stalled previous rows (request ∷ requests) = not (made_progress previous rows)

  -- One turn of the outer loop, whose plan is not empty.
  unfoldable pub turn :
      ℕ
      → Planner
      → Query
      → List (Stored D)
      → List Request
      → Loading W
      → Result (List (Stored D) × List Request) × Loading W
  unfolding load_pages read made_progress
  turn most p q rows requests s =
      if ltb (most - out.attempts s.world) (length requests)
      then (err upstream_attempt_limit, s)
      else (load_pages p q requests s then λ _ s1. read_again p q s1 then λ found s2.
          (if stalled rows found.0 found.1 then err incomplete_data else ok found, s2))

  -- The outer loop, on fuel: `none` is the loop that would go on without fuel.
  unfoldable pub load_from :
      ℕ
      → ℕ
      → Planner
      → Query
      → List (Stored D)
      → List Request
      → Loading W
      → Option (Result (Unit {0}) × Loading W)
  unfolding turn
  load_from zero most p q rows requests s = none
  load_from (suc fuel) most p q rows [] s = some (ok tt, s)
  load_from (suc fuel) most p q rows (request ∷ requests) s =
      turn most p q rows (request ∷ requests) s unless_failed λ found s'.
      load_from fuel most p q found.0 found.1 s'

  unfoldable pub load : ℕ → ℕ → Planner → Query → Loading W → Option (Result (Unit {0}) × Loading W)
  unfolding read load_from
  load fuel most p q s =
      read_again p q s unless_failed λ found s1. load_from fuel most p q found.0 found.1 s1
