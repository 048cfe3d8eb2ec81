-- ===== src/Application/Service/Slots.antt =====
-- The slots of the callers in `Get` of internal/application/kline/service.go.
use market_data.Prelude.{ℕ, suc, ◌-◌, ◌≡◌, sym, ◌∙◌, subst, arith, ◌⊎◌, inl, inr}
use market_data.Prelude.Map.{Map}
use market_data.Errors.{Error, Result, err, ok}
use market_data.Application.Series.{Scope, Query}
use market_data.Application.Planner.{Planner}
use market_data.Application.Service.{◌then◌}
use market_data.Application.Service.Checks.{
  Entering, holding, some_instrument, get_klines, validate_query,
}

-- The callers that hold a slot: only `take_slot` and `free_slot` change their number.
pub record Counted {W : Type 0} (entering : Entering W) (slots : W → ℕ) : Type 0 where
  pub clock_keeps : (w : W) → slots (entering.clock w).1 ≡ slots w
  pub alive_keeps : (w : W) → slots (entering.alive w).1 ≡ slots w
  pub instruments_keep : (q : Query) (w : W) → slots (entering.known_instruments q w).1 ≡ slots w
  pub frees : (w : W) → slots (entering.free_slot w) ≡ slots w - 1
  pub takes :
      (w : W)
      → (((w' : W) × (entering.take_slot w ≡ (ok tt, w')) × (slots w' ≡ suc (slots w)))
          ⊎ ((e : Error) × (w' : W) × (entering.take_slot w ≡ (err e, w')) × (slots w' ≡ slots w)))

then-keeps :
    {W B C : Type 0} (slots : W → ℕ) (n : ℕ) (r : Result B × W) (rest : B → W → Result C × W)
    → slots r.1 ≡ n
    → ((b : B) (w : W) → slots w ≡ n → slots (rest b w).1 ≡ n)
    → slots (r then rest).1 ≡ n
then-keeps slots n (err e, w) rest h k = h
then-keeps slots n (ok b, w) rest h k = k b w h

module _ {W A : Type 0} (entering : Entering W) (slots : W → ℕ)
    (counted : Counted entering slots) where
  -- `Get` gives back the slot that it takes, on every path: the callers that hold a slot are
  -- after a call as many as before it, if that holds of the turns of its loop.
  pub get_klines-slots :
      (planners : Map Scope Planner) (rounds : W → Result A × W) (q : Query) (w : W)
      → ((v : W) → slots (rounds v).1 ≡ slots v)
      → slots (get_klines entering planners rounds q w).1 ≡ slots w
  unfolding get_klines
  get_klines-slots planners rounds q w keeps =
      then-keeps slots (slots w)
        (validate_query planners q (entering.clock w).0, (entering.clock w).1) _
        (counted.clock_keeps w)
        λ u1 w1 h1.
          then-keeps slots (slots w) (entering.alive w1) _ (counted.alive_keeps w1 ∙ h1) λ u2 w2 h2.
            elim (counted.takes w2) [
              | inl (w3, taken, more) ↦
                  subst (λ r. slots (r then λ u v. holding entering rounds q v).1 ≡ slots w)
                    (sym taken) (counted.frees _ ∙ omega (arith, inside w3))
              | inr (e, w3, full, same) ↦
                  subst (λ r. slots (r then λ u v. holding entering rounds q v).1 ≡ slots w)
                    (sym full) (same ∙ h2)
            ]
    where
      inside :
          (v : W)
          → slots
              (entering.known_instruments q v then λ n w1.
                (some_instrument n, w1) then λ _ w2. rounds w2).1
            ≡ slots v
      inside v =
          then-keeps slots (slots v) (entering.known_instruments q v) _
            (counted.instruments_keep q v)
            λ n w1 h1.
              then-keeps slots (slots v) (some_instrument n, w1) _ h1 λ u w2 h2. keeps w2 ∙ h2
