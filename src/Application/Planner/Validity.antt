-- ===== src/Application/Planner/Validity.antt =====
-- `Planner.validate` of internal/application/kline/fetch_planner.go: what an accepted query
-- satisfies.
use market_data.Prelude.{
  ℕ, ◌≤◌, ◌≡◌, refl, sym, ap, ◌∙◌, subst, arith, Bool, true, false, not, ◌&&◌, ◌||◌, leb, Option,
  some, [], ◌∷◌, ite, if_pos, if_neg,
}
use mathlib.Core.Bool.{false≢true}
use market_data.Prelude.Int.{ℤ, pos, ltb_ℤ}
use market_data.Errors.{
  Error, both, Result, ok, err, ◌>>◌, guard, wrapped, >>=-eq-ok, guard-eq-ok, invalid_parameter,
  invalid_filter, invalid_interval, invalid_range, range_out_of_retention, invalid_timeframe,
  unknown_calendar,
}
use market_data.Domain.Names.{
  Exchange, Market, Timeframe, valid_exchange, valid_market, valid_timeframe,
}
use market_data.Domain.Time.{Time, before, after, unix}
use market_data.Domain.Timeframe.{
  Calendar, new_calendar, anchored, floor, count_slots, history_cutoff,
}
use market_data.Application.Series.{Query, Scope, Scope-discrete}
use market_data.Application.Snapshot.{select_snapshot}
use market_data.Application.Planner.{
  Planner, is_empty, contains, counted, within_limit, check_current, validate,
}

pub wrapped-ok :
    {A : Type 0} (w : Error → Error) (m : Result A) (a : A) → wrapped w m ≡ ok a → m ≡ ok a
wrapped-ok w (ok x) a h = h
wrapped-ok w (err e) a h = cc

counted-ok :
    (m : Result ℤ) (size : Option ℤ) (count : ℤ)
    → counted m ≡ ok size
    → within_limit size ≡ ok count
    → m ≡ ok count
counted-ok (ok n) size count h k = ground arith
counted-ok (err e) size count h k = ground arith

anchored-interval :
    (e : Exchange) (i : Timeframe) (c : Calendar) → anchored e i ≡ ok c → c.interval ≡ i
anchored-interval e i c h = ground arith

pub new_calendar-interval :
    (e : Exchange) (m : Market) (i : Timeframe) (c : Calendar)
    → new_calendar e m i ≡ ok c
    → valid_timeframe c.interval ≡ true
unfolding new_calendar
new_calendar-interval e m i c h =
    let (valid, h1) =
      guard-eq-ok (valid_timeframe i) invalid_timeframe
        (do
          guard (not (not (valid_exchange e) || not (valid_market m))) unknown_calendar
          anchored e i)
        h in
    let (known, h2) =
      guard-eq-ok (not (not (valid_exchange e) || not (valid_market m))) unknown_calendar
        (anchored e i) h1 in
    ap valid_timeframe (anchored-interval e i c h2) ∙ valid

positive_limit : (a b : ℕ) → not (leb a 0 || leb b 0) ≡ true → (1 ≤ a) × (1 ≤ b)
positive_limit a b h = ground arith

and_right : (a b : Bool) → a && b ≡ true → b ≡ true
and_right a b h = ground arith

cutoff_bound : (t cutoff : Time) → not (before t cutoff) ≡ true → cutoff ≤ t
cutoff_bound t cutoff h = ground arith

guard-true : (b : Bool) (e : Error) (u : Unit {0}) → guard b e ≡ ok u → b ≡ true
guard-true true e u h = refl
guard-true false e u h = cc

ok-injective : {A : Type 0} {x y : A} → ok x ≡ ok y → x ≡ y
ok-injective e = cc

same_scope :
    (s s' : Scope) (b : Bool) → ite (Scope-discrete s s') b false ≡ true → (s ≡ s') × (b ≡ true)
same_scope s s' b h = elim (Scope-discrete s s') [
  | yes e ↦ (e, sym (if_pos (Scope-discrete s s') e b false) ∙ h)
  | no n ↦ absurd (false≢true (sym (if_neg (Scope-discrete s s') n b false) ∙ h))
]

-- What each check of `validate` leaves behind.
pub record Accepted (p : Planner) (q : Query) (now : Time) (c : Calendar) (count : ℤ) : Type 0 where
  pub positive : (1 ≤ p.history_candles) × (1 ≤ p.page_limit)
  pub own_scope : q.scope ≡ p.scope
  pub supported : contains p.supported q.interval ≡ true
  pub calendar : new_calendar q.exchange q.market q.interval ≡ ok c
  pub size : count_slots c q.from q.to (pos p.history_candles) ≡ ok count
  pub current : Time
  pub floored : floor c now ≡ ok current
  pub ends : check_current c q current ≡ ok tt
  pub cutoff : Time
  pub retained : history_cutoff c now (pos p.history_candles) ≡ ok cutoff
  pub kept : cutoff ≤ q.from

pub validate-Accepted :
    (p : Planner) (q : Query) (now : Time) (c : Calendar) (count : ℤ)
    → validate p q now ≡ ok (c, count)
    → Accepted p q now c count
unfolding validate
validate-Accepted p q now c count h =
    let (u1, sizes, h1) =
      >>=-eq-ok (guard (not (leb p.history_candles 0 || leb p.page_limit 0)) invalid_parameter) _
        h in
    let (u2, same, h2) =
      >>=-eq-ok
        (guard (ite (Scope-discrete q.scope p.scope) (not (is_empty q.symbol)) false)
          invalid_filter)
        _ h1 in
    let (filter, selected, h3) =
      >>=-eq-ok
        (select_snapshot (p.scope ∷ [])
          (record { exchange = some q.exchange; market = some q.market; symbol = q.symbol }))
        _ h2 in
    let (u4, known, h4) =
      >>=-eq-ok
        (guard (valid_timeframe q.interval && contains p.supported q.interval) invalid_interval) _
        h3 in
    let (c', calendar, h5) =
      >>=-eq-ok (wrapped (both invalid_interval) (new_calendar q.exchange q.market q.interval)) _
        h4 in
    let (u6, epoch, h6) =
      >>=-eq-ok
        (guard (not (ltb_ℤ (unix q.from) (pos 0) || ltb_ℤ (unix q.to) (pos 0) || after q.from q.to))
          invalid_range)
        _ h5 in
    let (size, sized, h7) =
      >>=-eq-ok (counted (count_slots c' q.from q.to (pos p.history_candles))) _ h6 in
    let (current, floored, h8) = >>=-eq-ok (wrapped (both invalid_range) (floor c' now)) _ h7 in
    let (u9, ends, h9) = >>=-eq-ok (check_current c' q current) _ h8 in
    let (n, fits, h10) = >>=-eq-ok (within_limit size) _ h9 in
    let (cutoff, retained, h11) =
      >>=-eq-ok (wrapped (both invalid_range) (history_cutoff c' now (pos p.history_candles))) _
        h10 in
    let (u12, kept, h12) =
      >>=-eq-ok (guard (not (before q.from cutoff)) range_out_of_retention) _ h11 in
    let e = ok-injective h12 in
    subst (λ x. Accepted p q now x.0 x.1) e
      (record {
        positive =
            positive_limit p.history_candles p.page_limit (guard-true _ invalid_parameter u1 sizes);
        own_scope = (same_scope q.scope p.scope _ (guard-true _ invalid_filter u2 same)).0;
        supported =
            and_right (valid_timeframe q.interval) (contains p.supported q.interval)
              (guard-true _ invalid_interval u4 known);
        calendar =
            wrapped-ok (both invalid_interval) (new_calendar q.exchange q.market q.interval) c'
              calendar;
        size = counted-ok (count_slots c' q.from q.to (pos p.history_candles)) size n sized fits;
        current = current;
        floored = wrapped-ok (both invalid_range) (floor c' now) current floored;
        ends = ends;
        cutoff = cutoff;
        retained =
            wrapped-ok (both invalid_range) (history_cutoff c' now (pos p.history_candles)) cutoff
              retained;
        kept =
            cutoff_bound q.from cutoff
              (guard-true (not (before q.from cutoff)) range_out_of_retention u12 kept);
      })
