-- ===== src/Application/Service/Ends.antt =====
-- The end of the loops of `load` in internal/application/kline/fill.go.
use market_data.Prelude.{
  ℕ, zero, suc, ◌+◌, ◌-◌, ◌≤◌, ◌<◌, ◌≡◌, refl, sym, ◌∙◌, ap, subst, arith, Bool, true, false,
  Option, some, List, [], ◌∷◌, length, ltb, Bool-cases, ◌⊎◌, inl, inr, if◌then◌else◌,
}
use market_data.Errors.{Error, Result, err, ok, incomplete_data, ok_value}
use market_data.Application.Series.{Query, Request, Stored}
use market_data.Application.Planner.{Planner}
use market_data.Application.Fills.{downloaded}
use market_data.Application.Service.{Outside, ◌then◌, valid_now}
use market_data.Application.Service.Load.{
  Loading, lifted, gather, load_page, load_pages, read_again, stalled, turn, ◌unless_failed◌,
  load_from, load,
}
use market_data.Application.Service.Complete.{
  then-ok, Planned, Covered, Planned-Covered, read-Planned, Counting, after_call, valid_now-counts,
  read-counts,
}

gather-world :
    {W D : Type 0} (q : Query) (page : List (Stored D)) (s : Loading W)
    → (gather q page s).world ≡ s.world
unfolding gather
gather-world q [] s = refl
gather-world q (row ∷ page) s = gather-world q page _

err_ne_ok : {A X : Type 0} {e : Error} {a : A} → err e ≡ ok a → X
err_ne_ok h = cc

passed : {A : Type 0} (b : Bool) (e : Error) (x y : A) → (if b then err e else ok x) ≡ ok y → x ≡ y
passed true e x y h = err_ne_ok h
passed false e x y h = ok_value x y h

-- A successful operation on the outside, next to the evidence.
lifted-ok :
    {W A : Type 0} (s s' : Loading W) (r : Result A × W) (a : A)
    → lifted s r ≡ (ok a, s')
    → (r ≡ (ok a, s'.world)) × (s.refreshed ≡ s'.refreshed)
lifted-ok s s' (r, w) a h = (ap (λ x. (x.0, x.1.world)) h, ap (λ x. x.1.refreshed) h)

module _ {W D : Type 0} (out : Outside W D) (counting : Counting out) (p : Planner)
    (q : Query) where
  load_page-counts :
      (request : Request) (s s' : Loading W)
      → load_page out p q request s ≡ (ok tt, s')
      → out.attempts s.world < out.attempts s'.world
  unfolding load_page
  load_page-counts request s s' h =
      let (now, s1, timed, h1) = then-ok (lifted s (valid_now out p q s.world)) _ h in
      let (page, s2, got, h2) = then-ok (lifted s1 (out.get_klines request s1.world)) _ h1 in
      let seen = out.observe (downloaded q.scope (length page)) s2.world in
      let (u, s3, stored, h3) = then-ok (lifted s2 (out.upsert_many page seen)) _ h2 in
      let a1 =
        valid_now-counts out counting p q s.world s1.world now (lifted-ok s s1 _ now timed).0 in
      let a2 =
        counting.get_klines_counts request s1.world s2.world page (lifted-ok s1 s2 _ page got).0 in
      let a3 =
        after_call out counting p q (out.upsert_many page seen) u seen s3.world
          (counting.upsert_many_counts page seen) (lifted-ok s2 s3 _ u stored).0 in
      let a4 : s3.world ≡ s'.world = sym (gather-world q page s3) ∙ ap (λ x. x.1.world) h3 in
      omega (
        arith,
        ap out.attempts a4,
        counting.observe_counts (downloaded q.scope (length page)) s2.world,
      )

  load_pages-counts :
      (requests : List Request) (s s' : Loading W)
      → load_pages out p q requests s ≡ (ok tt, s')
      → out.attempts s.world + length requests ≤ out.attempts s'.world
  unfolding load_pages
  load_pages-counts [] s s' h = omega (arith, ap (λ x. out.attempts x.1.world) h)
  load_pages-counts (request ∷ requests) s s' h =
      let (u, s1, loaded, rest) = then-ok (load_page out p q request s) _ h in
      omega (arith, load_page-counts request s s1 loaded, load_pages-counts requests s1 s' rest)

  -- A turn that succeeds leaves what the storage gave and the plan for it, and has used an
  -- attempt of those that remained.
  turn-ok :
      (most : ℕ) (rows : List (Stored D)) (request : Request) (requests : List Request)
      (s s' : Loading W) (found : List (Stored D) × List Request)
      → turn out most p q rows (request ∷ requests) s ≡ (ok found, s')
      → (out.attempts s.world < most)
        × (out.attempts s.world < out.attempts s'.world)
        × Planned out p q s'.refreshed found.0 found.1
  unfolding turn
  turn-ok most rows request requests s s' found h =
      elim (Bool-cases (ltb (most - out.attempts s.world) (suc (length requests)))) [
        | inl over ↦ err_ne_ok (ap (λ x. x.0) (rw over at h))
        | inr fits ↦
            let h' = rw fits at h in
            let (u, s1, loaded, h1) = then-ok (load_pages out p q (request ∷ requests) s) _ h' in
            let (found', s2, again, h2) = then-ok (read_again out p q s1) _ h1 in
            let (reads, same_evidence) = lifted-ok s1 s2 _ found' again in
            let same_found =
              passed (stalled out rows found'.0 found'.1) incomplete_data found' found
                (ap (λ x. x.0) h2) in
            let same_state : s2 ≡ s' = ap (λ x. x.1) h2 in
            let pages_count = load_pages-counts (request ∷ requests) s s1 loaded in
            let read_counts =
              read-counts out counting p q s1.refreshed s1.world s2.world found' reads in
            let planned = read-Planned out p q s1.refreshed s1.world s2.world found' reads in
            (
              ground arith,
              omega (arith, ap (λ x. out.attempts x.world) same_state),
              subst (λ x. Planned out p q s'.refreshed x.0 x.1) same_found
                  (subst (λ e. Planned out p q e found'.0 found'.1)
                    (same_evidence ∙ ap (λ x. x.refreshed) same_state) planned),
            )
      ]

  -- The outer loop returns, and if it reports success, then the storage settles every slot.
  abbrev pub Ends : Option (Result (Unit {0}) × Loading W) → Type 0
  Ends outcome =
      ((e : Error) × (s : Loading W) × (outcome ≡ some (err e, s)))
      ⊎ ((s : Loading W) × (rows : List (Stored D)) × (outcome ≡ some (ok tt, s))
          × Covered out p q s.refreshed rows)

  turn-Ends :
      (fuel most : ℕ) (r : Result (List (Stored D) × List Request) × Loading W)
      → ((found : List (Stored D) × List Request) (s' : Loading W)
          → r ≡ (ok found, s')
          → Ends (load_from out fuel most p q found.0 found.1 s'))
      → Ends (r unless_failed λ found s'. load_from out fuel most p q found.0 found.1 s')
  turn-Ends fuel most (err e, s') rest = inl (e, s', refl)
  turn-Ends fuel most (ok found, s') rest = rest found s' refl

  load_from-Ends :
      (fuel most : ℕ) (rows : List (Stored D)) (requests : List Request) (s : Loading W)
      → 1 ≤ fuel
      → suc most ≤ fuel + out.attempts s.world
      → Planned out p q s.refreshed rows requests
      → Ends (load_from out fuel most p q rows requests s)
  unfolding load_from
  load_from-Ends zero most rows requests s h enough planned = grind arith
  load_from-Ends (suc fuel) most rows [] s h enough planned =
      inr (s, rows, refl, Planned-Covered out p q s.refreshed rows planned)
  load_from-Ends (suc fuel) most rows (request ∷ requests) s h enough planned =
      turn-Ends fuel most (turn out most p q rows (request ∷ requests) s) λ found s' e.
        let (left, used, next) = turn-ok most rows request requests s s' found e in
        load_from-Ends fuel most found.0 found.1 s' (omega arith) (omega arith) next

  -- A fill whose attempts are counted ends, whatever the storage, the provider and the other
  -- goroutines do: `MaxAttempts` and one turns of its loop are enough. It returns an error, or
  -- the storage gave rows that settle every slot of the query, given the fill's evidence.
  pub load-Ends : (most : ℕ) (s : Loading W) → Ends (load out (suc most) most p q s)
  unfolding load
  load-Ends most s = turn-Ends (suc most) most (read_again out p q s) λ found s1 e.
      let (reads, same_evidence) = lifted-ok s s1 _ found e in
      load_from-Ends (suc most) most found.0 found.1 s1 (omega arith) (omega arith) (
        subst (λ x. Planned out p q x found.0 found.1) same_evidence
          (read-Planned out p q s.refreshed s.world s1.world found reads))
