-- ===== src/Application/Service/Round.antt =====
-- `Get` of internal/application/kline/service.go: a turn of its loop.
use market_data.Prelude.{
  ℕ, ◌≡◌, refl, Bool, Option, none, some, List, [], ◌∷◌, map, ◌==◌, if◌then◌else◌, ◌⊎◌, inl, inr,
  if_cases,
}
use market_data.Errors.{Error, Result, err, ok, upstream_attempt_limit}
use market_data.Domain.Market.{Kline}
use market_data.Application.Series.{Query, Request, Stored}
use market_data.Application.Fills.{cache_read}
use market_data.Application.Planner.{Planner, is_empty}
use market_data.Application.Planner.Loading.{Refreshes}
use market_data.Application.Refreshes.{merge}
use market_data.Application.Service.{Outside, read}
use market_data.Application.Service.Complete.{Covered, Planned-Covered, read-Planned}

-- What a caller does with its budget and with fills. `wait` gives the error of the fill, if any,
-- and `saved` the evidence of a fill that is done.
pub record Joining (W : Type 0) : Type 0 where
  pub remaining : W → ℕ
  pub exhausted : W → Bool
  pub join : Query → Refreshes → W → Result ℕ × W
  pub wait : ℕ → W → Option Error × W
  pub saved : ℕ → W → Option Refreshes

-- The end of a turn: `Get` returns, or goes on with new evidence and the error of the fill.
pub data Answer (D : Type 0) : Type 0 where
  returns : Result (List (Kline D)) → Answer D
  again : Refreshes → Option Error → Answer D

abbrev pub with_saved : Query → Option Refreshes → Refreshes → Refreshes
with_saved q none refreshed = refreshed
with_saved q (some evidence) refreshed = merge q evidence refreshed

module _ {W D : Type 0} (out : Outside W D) (joining : Joining W) (p : Planner) (q : Query) where
  -- After `wait`: the budget, the evidence, the context.
  unfoldable pub after_wait : ℕ → Refreshes → Option Error × W → Answer D × W
  unfolding merge
  after_wait fill refreshed (failure, w) =
      if joining.exhausted w
      then (returns (err upstream_attempt_limit), w)
      else elim (out.failed w).0 [
        | some e ↦ (returns (err e), (out.failed w).1)
        | none ↦ (again (with_saved q (joining.saved fill w) refreshed) failure, (out.failed w).1)
      ]

  abbrev after_join : Refreshes → Result ℕ × W → Answer D × W
  after_join refreshed (err e, w) = (returns (err e), w)
  after_join refreshed (ok fill, w) = after_wait fill refreshed (joining.wait fill w)

  -- After `read`, where the rows do not answer the query.
  unfoldable pub fetch : Refreshes → Option Error → W → Answer D × W
  unfolding after_wait
  fetch refreshed (some e) w = (returns (err e), w)
  fetch refreshed none w =
      if joining.remaining w == 0
      then (returns (err upstream_attempt_limit), w)
      else after_join refreshed (joining.join q refreshed w)

  abbrev seen_cache : Bool → List Request → W → W
  seen_cache first requests w =
      if first then out.observe (cache_read q.scope (is_empty requests)) w else w

  abbrev decide :
      Bool → Refreshes → Option Error → Result (List (Stored D) × List Request) × W → Answer D × W
  decide first refreshed fill_error (err e, w) = (returns (err e), w)
  decide first refreshed fill_error (ok (rows, []), w) =
      (returns (ok (map (λ row. row.candle) rows)), seen_cache first [] w)
  decide first refreshed fill_error (ok (rows, request ∷ requests), w) =
      fetch refreshed fill_error (seen_cache first (request ∷ requests) w)

  -- `first` is the first turn, `fill_error` the error of the fill that the turn before waited for.
  unfoldable pub round : Bool → Refreshes → Option Error → W → Answer D × W
  unfolding read fetch
  round first refreshed fill_error w = decide first refreshed fill_error (read out p q refreshed w)

  -- What a turn may answer.
  abbrev pub Sound : Refreshes → Option Error → Answer D → Type 0
  Sound refreshed fill_error answer =
      ((e : Error) × (answer ≡ returns (err e)))
      ⊎ ((rows : List (Stored D)) × (answer ≡ returns (ok (map (λ row. row.candle) rows)))
          × Covered out p q refreshed rows)
      ⊎ ((refreshed' : Refreshes) × (failure : Option Error) × (answer ≡ again refreshed' failure)
          × (fill_error ≡ none))

  after_wait-Sound :
      (fill : ℕ) (refreshed : Refreshes) (r : Option Error × W)
      → Sound refreshed none (after_wait fill refreshed r).0
  unfolding after_wait
  after_wait-Sound fill refreshed (failure, w) =
      if_cases (λ (x : Answer D × W). Sound refreshed none x.0) (joining.exhausted w)
        (λ over. inl (upstream_attempt_limit, refl)) (λ left. living (out.failed w).0)
    where
      living :
          (f : Option Error)
          → Sound refreshed none
              (elim f as (λ x. Answer D × W) [
                | some e ↦ (returns (err e), (out.failed w).1)
                | none ↦ (
                  again (with_saved q (joining.saved fill w) refreshed) failure,
                  (out.failed w).1,
                )
              ]).0
      living (some e) = inl (e, refl)
      living none = inr (inr (_, failure, refl, refl))

  after_join-Sound :
      (refreshed : Refreshes) (r : Result ℕ × W) → Sound refreshed none (after_join refreshed r).0
  after_join-Sound refreshed (err e, w) = inl (e, refl)
  after_join-Sound refreshed (ok fill, w) = after_wait-Sound fill refreshed (joining.wait fill w)

  fetch-Sound :
      (refreshed : Refreshes) (fill_error : Option Error) (w : W)
      → Sound refreshed fill_error (fetch refreshed fill_error w).0
  unfolding fetch
  fetch-Sound refreshed (some e) w = inl (e, refl)
  fetch-Sound refreshed none w =
      if_cases (λ (x : Answer D × W). Sound refreshed none x.0) (joining.remaining w == 0)
        (λ over. inl (upstream_attempt_limit, refl))
        (λ left. after_join-Sound refreshed (joining.join q refreshed w))

  decide-Sound :
      (first : Bool) (refreshed : Refreshes) (fill_error : Option Error) (w : W)
      (r : Result (List (Stored D) × List Request) × W)
      → read out p q refreshed w ≡ r
      → Sound refreshed fill_error (decide first refreshed fill_error r).0
  decide-Sound first refreshed fill_error w (err e, w') h = inl (e, refl)
  decide-Sound first refreshed fill_error w (ok (rows, []), w') h = inr (
      inl (
        rows,
        refl,
        Planned-Covered out p q refreshed rows (read-Planned out p q refreshed w w' (rows, []) h),
      ))
  decide-Sound first refreshed fill_error w (ok (rows, request ∷ requests), w') h =
      fetch-Sound refreshed fill_error _

  -- Each turn of the loop of `Get` does one of three things, whatever the storage, the fills and
  -- the other goroutines do: it returns an error; it returns the candles of the rows that the
  -- storage gave, which settle every slot of the query, given the caller's evidence; or it goes
  -- on, and then the turn before did not wait for a fill that failed.
  pub round-Sound :
      (first : Bool) (refreshed : Refreshes) (fill_error : Option Error) (w : W)
      → Sound refreshed fill_error (round first refreshed fill_error w).0
  unfolding round
  round-Sound first refreshed fill_error w =
      decide-Sound first refreshed fill_error w (read out p q refreshed w) refl
