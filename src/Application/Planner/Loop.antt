-- ===== src/Application/Planner/Loop.antt =====
-- The loop of `Planner.plan` (internal/application/kline/fetch_planner.go) keeps to the
-- description of its pages.
use market_data.Prelude.{
  ℕ, zero, suc, ◌+◌, ◌-◌, ◌≤◌, ◌≡◌, refl, sym, subst, ap, ◌∙◌, arith, Bool, true, false, leb,
  Option, none, some, List, ◌∷◌, if◌then◌else◌, Bool-cases, inl, inr, ℕ_discrete,
}
use market_data.Prelude.Map.{Map, get}
use market_data.Errors.{Result, ok, err, >>=-eq-ok}
use market_data.Domain.Grid.{index-slot}
use market_data.Domain.Names.{valid_timeframe}
use market_data.Domain.Time.{Time}
use market_data.Domain.Timeframe.{Calendar, next}
use market_data.Domain.Timeframe.Boundaries.{boundaries}
use market_data.Domain.Timeframe.RoundTrip.{shift_up-slot}
use market_data.Application.Series.{Query, Request}
use market_data.Application.Planner.Loading.{
  Page, extend, new_page, place, emit, flush, advance, advanced, is_true, pages,
}
use market_data.Application.Planner.Pages.{
  IsPlan, AllDone-cast, no_span, one_more, IsPlan-skip, IsPending, begins,
}

module _ (c : Calendar) (q : Query) (limit : ℕ) (done : Time → Bool) where
  advanced-ok :
      (opens last end : Time) (m : Result Time) → advanced opens last m ≡ ok end → m ≡ ok end
  advanced-ok opens last end (ok t) h = ground arith
  advanced-ok opens last end (err e) h = cc

  advance-slot :
      (opens end : Time) (k : ℕ)
      → valid_timeframe c.interval ≡ true
      → advance c q opens ≡ ok end
      → opens ≡ (boundaries c).slot k
      → end ≡ (boundaries c).slot (suc k)
  unfolding advance next
  advance-slot opens end k valid h e =
      let went = advanced-ok opens q.to end (next c opens) h in
      let (lands, number, first, last) = shift_up-slot c valid opens end 1 went in
      let at_k : (boundaries c).index opens ≡ k =
        ap (boundaries c).index e ∙ index-slot (boundaries c) k in
      let up : (boundaries c).index opens + 1 ≡ suc k = omega arith in
      sym lands ∙ ap (boundaries c).slot up

  -- A slot that needs no loading leaves the page under construction as it is.
  IsPending-skip :
      (b k : ℕ) (pending : Option Page)
      → done ((boundaries c).slot (b + k)) ≡ true
      → IsPending c q limit done b k pending
      → IsPending c q limit done b (suc k) pending
  unfolding IsPending
  IsPending-skip b k none d h = tt
  IsPending-skip b k (some page) d (p, le, x) =
      let a = b + page.start in
      let e = a + page.request.limit in
      (
        p,
        omega arith,
        AllDone-cast c q limit done e e (suc (b + k) - e) (b + suc k - e) refl (omega arith)
            (one_more c q limit done e (b + k) le x d),
      )

  IsPlan-skip_begin :
      (b k j : ℕ) (pending : Option Page) (rs : List Request)
      → done ((boundaries c).slot (b + k)) ≡ true
      → IsPlan c q limit done (begins c q limit done b (suc k) pending) j rs
      → IsPlan c q limit done (begins c q limit done b k pending) j rs
  IsPlan-skip_begin b k j none rs d h =
      let x =
        one_more c q limit done (b + k) (b + k) (omega arith) (no_span c q limit done (b + k)) d in
      IsPlan-skip c q limit done (b + k) (b + suc k) j rs (omega arith)
        (AllDone-cast c q limit done (b + k) (b + k) (suc (b + k) - (b + k)) (b + suc k - (b + k))
          refl (omega arith) x)
        h
  IsPlan-skip_begin b k j (some page) rs d h = h

  new-IsPending :
      (b k : ℕ) (opens end : Time)
      → 1 ≤ limit
      → opens ≡ (boundaries c).slot (b + k)
      → end ≡ (boundaries c).slot (suc (b + k))
      → done opens ≡ false
      → IsPending c q limit done b (suc k) (some (new_page q k opens end))
  unfolding IsPending
  new-IsPending b k opens end positive e f d =
      let next_slot : b + k + 1 ≡ suc (b + k) = omega arith in
      let same_slot : b + k + 1 - 1 ≡ b + k = omega arith in
      (
        record {
          same_series = refl;
          starts_at = e;
          ends_at = f ∙ ap (boundaries c).slot (sym next_slot);
          lower = omega arith;
          upper = positive;
          first_slot = ap done (sym e) ∙ d;
          last_slot = ap done (ap (boundaries c).slot same_slot ∙ sym e) ∙ d;
        },
        omega arith,
        AllDone-cast c q limit done (b + k + 1) (b + k + 1) (b + k + 1 - (b + k + 1))
            (b + suc k - (b + k + 1)) refl (omega arith) (no_span c q limit done (b + k + 1)),
      )

  extend-IsPending :
      (b k : ℕ) (opens end : Time) (page : Page)
      → IsPending c q limit done b k (some page)
      → leb limit (k - page.start) ≡ false
      → opens ≡ (boundaries c).slot (b + k)
      → end ≡ (boundaries c).slot (suc (b + k))
      → done opens ≡ false
      → IsPending c q limit done b (suc k) (some (extend page k end))
  unfolding IsPending
  extend-IsPending b k opens end page (p, le, x) short e f d =
      let within : k - page.start + 1 ≤ limit = ground arith in
      let nonempty = p.lower in
      let next_slot : b + page.start + (k - page.start + 1) ≡ suc (b + k) = omega arith in
      let same_slot : b + page.start + (k - page.start + 1) - 1 ≡ b + k = omega arith in
      let a = b + page.start + (k - page.start + 1) in
      (
        record {
          same_series = p.same_series;
          starts_at = p.starts_at;
          ends_at = f ∙ ap (boundaries c).slot (sym next_slot);
          lower = omega arith;
          upper = within;
          first_slot = p.first_slot;
          last_slot = ap done (ap (boundaries c).slot same_slot ∙ sym e) ∙ d;
        },
        omega arith,
        AllDone-cast c q limit done a a (a - a) (b + suc k - a) refl (omega arith)
            (no_span c q limit done a),
      )

  -- A slot that needs loading joins the page under construction, or starts the next one.
  place-IsPlan :
      (b k j : ℕ) (opens end : Time) (pending : Option Page) (rs : List Request)
      → 1 ≤ limit
      → opens ≡ (boundaries c).slot (b + k)
      → end ≡ (boundaries c).slot (suc (b + k))
      → done opens ≡ false
      → IsPending c q limit done b k pending
      → let placed = place q limit k opens end pending in
        IsPending c q limit done b (suc k) (some placed.1)
        × (IsPlan c q limit done (b + placed.1.start) j rs
            → IsPlan c q limit done (begins c q limit done b k pending) j (emit placed.0 rs))
  unfolding place IsPending IsPlan
  place-IsPlan b k j opens end none rs positive e f d pending =
      (new-IsPending b k opens end positive e f d, λ h. h)
  place-IsPlan b k j opens end (some page) rs positive e f d pending =
      elim (Bool-cases (leb limit (k - page.start))) [
        | inl full ↦ rw full (
          new-IsPending b k opens end positive e f d,
          λ h. finished-IsPlan b k j page rs pending h,
        )
        | inr short ↦ rw short (extend-IsPending b k opens end page pending short e f d, λ h. h)
      ]
    where
      finished-IsPlan :
          (b k j : ℕ) (page : Page) (rs : List Request)
          → IsPending c q limit done b k (some page)
          → IsPlan c q limit done (b + k) j rs
          → IsPlan c q limit done (b + page.start) j (page.request ∷ rs)
      finished-IsPlan b k j page rs (p, le, x) h =
          let a = b + page.start in
          (
            a,
            omega arith,
            no_span c q limit done a,
            p,
            IsPlan-skip c q limit done (a + page.request.limit) (b + k) j rs le x h,
          )

  flush-IsPlan :
      (b k : ℕ) (pending : Option Page)
      → IsPending c q limit done b k pending
      → IsPlan c q limit done (begins c q limit done b k pending) (b + k) (flush pending)
  unfolding IsPending IsPlan
  flush-IsPlan b k none h = (omega arith, no_span c q limit done (b + k))
  flush-IsPlan b k (some page) (p, le, x) =
      let a = b + page.start in (a, omega arith, no_span c q limit done a, p, (le, x))

  -- What the loop returns, from any of its states.
  pub pages-IsPlan :
      (final : Map Time Bool) (b n k : ℕ) (opens : Time) (pending : Option Page) (rs : List Request)
      → valid_timeframe c.interval ≡ true
      → 1 ≤ limit
      → ((t : Time) → is_true (get ℕ_discrete t final) ≡ done t)
      → opens ≡ (boundaries c).slot (b + k)
      → IsPending c q limit done b k pending
      → pages c q limit final n k opens pending ≡ ok rs
      → IsPlan c q limit done (begins c q limit done b k pending) (b + k + n) rs
  unfolding pages
  pages-IsPlan final b zero k opens pending rs valid positive agrees e inv h =
      let same : flush pending ≡ rs = cc in
      let last : b + k ≡ b + k + 0 = omega arith in
      subst (λ xs. IsPlan c q limit done (begins c q limit done b k pending) (b + k + 0) xs) same
        (subst (λ j. IsPlan c q limit done (begins c q limit done b k pending) j (flush pending))
          last (flush-IsPlan b k pending inv))
  pages-IsPlan final b (suc n) k opens pending rs valid positive agrees e inv h =
      let (end, moved, h1) = >>=-eq-ok (advance c q opens) _ h in
      let f = advance-slot opens end (b + k) valid moved e in
      let g : end ≡ (boundaries c).slot (b + suc k) = f ∙ ap (boundaries c).slot (omega arith) in
      let last : b + suc k + n ≡ b + k + suc n = omega arith in
      let placed = place q limit k opens end pending in
      let ready = is_true (get ℕ_discrete opens final) in
      let (rest, found, h2) =
        >>=-eq-ok (pages c q limit final n (suc k) end (if ready then pending else some placed.1))
          (λ rest. ok (if ready then rest else emit placed.0 rest)) h1 in
      elim (Bool-cases ready) [
        | inl done_here ↦
            let d : done ((boundaries c).slot (b + k)) ≡ true =
              ap done (sym e) ∙ sym (agrees opens) ∙ done_here in
            let found' = rw done_here at found in
            let same : rest ≡ rs = ground arith in
            let step =
              pages-IsPlan final b n (suc k) end pending rest valid positive agrees g
                (IsPending-skip b k pending d inv) found' in
            subst
              (λ xs. IsPlan c q limit done (begins c q limit done b k pending) (b + k + suc n) xs)
              same
              (IsPlan-skip_begin b k (b + k + suc n) pending rest d (
                subst (λ j. IsPlan c q limit done (begins c q limit done b (suc k) pending) j rest)
                  last step))
        | inr missing ↦
            let d : done opens ≡ false = sym (agrees opens) ∙ missing in
            let found' = rw missing at found in
            let same : emit placed.0 rest ≡ rs = ground arith in
            let (inv', whole) =
              place-IsPlan b k (b + k + suc n) opens end pending rest positive e f d inv in
            let step =
              pages-IsPlan final b n (suc k) end (some placed.1) rest valid positive agrees g inv'
                found' in
            subst
              (λ xs. IsPlan c q limit done (begins c q limit done b k pending) (b + k + suc n) xs)
              same
              (whole (subst (λ j. IsPlan c q limit done (b + placed.1.start) j rest) last step))
      ]
