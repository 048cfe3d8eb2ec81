-- ===== src/Upstream/Expiry.antt =====
-- The binary search of `budgetReady` (internal/infrastructure/exchange/upstream/deferral.go).
use market_data.Prelude.{
  ℕ, zero, suc, ◌+◌, ◌-◌, ◌/◌, ◌≤◌, ◌<◌, ◌≡◌, refl, sym, ap, ◌∙◌, arith, Bool, true, false, ltb,
  List, length, get_elem?, ◌⊎◌, inl, inr, if_cases, subst,
}
use market_data.Domain.Time.{Time}
use market_data.Upstream.{Window, Cost, ScopeState}
use market_data.Upstream.Usage.{time_of, search_expiry, expiries, fits_at, budget_ready}

module _ (fits : Time → Bool) (ts : List Time) where
  -- Does the k-th time fit?
  abbrev fits_nth : ℕ → Bool
  fits_nth k = fits (time_of (get_elem? ts k))

  -- Where the test changes: at k, or past the end, and not before k.
  abbrev pub Crossing : ℕ → ℕ → Type 0
  Crossing n k = (k ≤ n) × ((k ≡ n) ⊎ (fits_nth k ≡ true)) × ((k ≡ 0) ⊎ (fits_nth (k - 1) ≡ false))

  search_expiry-Crossing :
      (fuel n i j : ℕ)
      → i ≤ j
      → j ≤ n
      → j < fuel + i
      → (j ≡ n) ⊎ (fits_nth j ≡ true)
      → (i ≡ 0) ⊎ (fits_nth (i - 1) ≡ false)
      → Crossing n (search_expiry fuel fits ts i j)
  unfolding search_expiry
  search_expiry-Crossing zero n i j a b l e s = ground arith
  search_expiry-Crossing (suc fuel) n i j a b l e s =
      let middle = i + (j - i) / 2 in
      if_cases (Crossing n) (ltb i j)
        (λ more.
          if_cases (Crossing n) (fits_nth middle)
            (λ fit.
              search_expiry-Crossing fuel n i middle (omega arith) (ground (arith, more))
                (ground (arith, more)) (inr fit) s)
            (λ unfit.
              search_expiry-Crossing fuel n (middle + 1) j (ground (arith, more)) b
                (ground (arith, more)) e (inr (ap fits_nth (after_middle middle) ∙ unfit))))
        (λ empty.
          let same_index : i ≡ j = ground (arith, empty) in
          (omega arith, (subst (λ k. (k ≡ n) ⊎ (fits_nth k ≡ true)) (sym same_index) e), s))
    where
      after_middle : (m : ℕ) → m + 1 - 1 ≡ m
      after_middle m = omega arith

-- The binary search of `budgetReady` ends after at most one round more than there are expiries,
-- and ends at a crossing: the request fits at the expiry it stops at, or it stops past the last
-- one, and it does not fit at the expiry before. The test need not be monotone.
pub budget_ready-Crossing :
    (s : ScopeState) (w : Window) (c : Cost) (now : Time)
    → let ts = expiries w now s.history in
      (k : ℕ) × (budget_ready s w c now ≡ time_of (get_elem? ts k))
      × Crossing (fits_at s w c) ts (length ts) k
unfolding budget_ready
budget_ready-Crossing s w c now =
    let ts = expiries w now s.history in
    (
      search_expiry (length ts + 1) (fits_at s w c) ts 0 (length ts),
      refl,
      search_expiry-Crossing (fits_at s w c) ts (length ts + 1) (length ts) 0 (length ts)
          (omega arith) (omega arith) (omega arith) (inl refl) (inl refl),
    )
