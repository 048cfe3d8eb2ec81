-- ===== src/Application/Service/Complete.antt =====
-- `load` of internal/application/kline/fill.go as a whole: it ends, and what it reports is
-- complete.
use market_data.Prelude.{◌-◌, ◌≤◌, ◌<◌, ◌≡◌, refl, ap, subst, arith, List, []}
use market_data.Prelude.Int.{ℤ}
use market_data.Errors.{Result, err, ok, >>=-eq-ok, ok_value}
use market_data.Domain.Time.{Time}
use market_data.Domain.Timeframe.{Calendar, new_calendar}
use market_data.Domain.Timeframe.Boundaries.{boundaries}
use market_data.Application.Series.{Query, Request, Stored}
use market_data.Application.Planner.{Planner, validate}
use market_data.Application.Planner.Loading.{Refreshes, plan}
use market_data.Application.Planner.Pages.{AllDone, IsPlan}
use market_data.Application.Planner.Settled.{settled}
use market_data.Application.Planner.Validity.{validate-Accepted}
use market_data.Application.Planner.Whole.{plan-IsPlan}
use market_data.Application.Fills.{Event}
use market_data.Application.Service.{Outside, ◌then◌, alive, valid_now, with_rows, read}

-- What a call that fails skips.
pub then-ok :
    {W A B : Type 0} (r : Result A × W) (rest : A → W → Result B × W) {b : B} {w' : W}
    → (r then rest) ≡ (ok b, w')
    → (a : A) × (w : W) × (r ≡ (ok a, w)) × (rest a w ≡ (ok b, w'))
then-ok (err e, w) rest {b} h = absurd (ap (λ x. x.0) h)
  where
    absurd : {X : Type 0} → err e ≡ ok b → X
    absurd k = cc
then-ok (ok a, w) rest h = (a, w, refl, h)

with_rows-ok :
    {W D : Type 0} (out : Outside W D) (rows : List (Stored D)) (r : Result (List Request))
    (found : List (Stored D) × List Request)
    → with_rows out rows r ≡ ok found
    → (rows ≡ found.0) × (r ≡ ok found.1)
with_rows-ok out rows (err e) found h = cc
with_rows-ok out rows (ok requests) found h =
    let same = ok_value (rows, requests) found h in (ap (λ x. x.0) same, ap (λ x. ok x.1) same)

module _ {W D : Type 0} (out : Outside W D) (p : Planner) (q : Query) where
  -- The storage gave rows, and with this evidence they leave these requests at some time.
  pub record Planned (refreshed : Refreshes) (rows : List (Stored D)) (requests : List Request)
      : Type 0 where
    pub asked : W
    pub now : Time
    pub answered : (out.get_range q asked).0 ≡ ok rows
    pub planned : plan p q rows now refreshed ≡ ok requests

  -- The storage gave rows that settle each slot of the query: with a final row, or with one that
  -- is as new as the evidence.
  pub record Covered (refreshed : Refreshes) (rows : List (Stored D)) : Type 0 where
    pub asked : W
    pub now : Time
    pub answered : (out.get_range q asked).0 ≡ ok rows
    pub calendar : Calendar
    pub known : new_calendar q.exchange q.market q.interval ≡ ok calendar
    pub ordered : (boundaries calendar).index q.from ≤ (boundaries calendar).index q.to
    pub every :
        AllDone calendar q p.page_limit
          (settled refreshed now rows)
          ((boundaries calendar).index q.from)
          ((boundaries calendar).index q.to - (boundaries calendar).index q.from)

  -- Nothing to load means that every slot is settled.
  pub Planned-Covered :
      (refreshed : Refreshes) (rows : List (Stored D))
      → Planned refreshed rows []
      → Covered refreshed rows
  unfolding plan IsPlan
  Planned-Covered refreshed rows d =
      let ((c, count), valid, _) = >>=-eq-ok (validate p q d.now) _ d.planned in
      let accepted = validate-Accepted p q d.now c count valid in
      let (ordered, done) = plan-IsPlan p q rows d.now refreshed c [] accepted.calendar d.planned in
      record {
        asked = d.asked;
        now = d.now;
        answered = d.answered;
        calendar = c;
        known = accepted.calendar;
        ordered = ordered;
        every = done;
      }

  pub read-Planned :
      (refreshed : Refreshes) (w w' : W) (found : List (Stored D) × List Request)
      → read out p q refreshed w ≡ (ok found, w')
      → Planned refreshed found.0 found.1
  unfolding read
  read-Planned refreshed w w' found h =
      let (_, w1, alive_first, h1) = then-ok (alive out w) _ h in
      let (now, w2, timed, h2) = then-ok (valid_now out p q w1) _ h1 in
      let (rows, w3, got, h3) = then-ok (out.get_range q w2) _ h2 in
      let (_, w4, alive_last, h4) = then-ok (alive out w3) _ h3 in
      let (same_rows, planned) =
        with_rows-ok out rows (plan p q rows now refreshed) found (ap (λ x. x.0) h4) in
      subst (λ rs. Planned refreshed rs found.1) same_rows
        (record { asked = w2; now = now; answered = ap (λ x. x.0) got; planned = planned })

-- What the fill relies on: the attempts of a fill are counted before each of them, so a page that
-- arrives is counted, and nothing else takes one back.
pub record Counting {W D : Type 0} (out : Outside W D) : Type 0 where
  pub failed_counts : (w : W) → out.attempts w ≤ out.attempts (out.failed w).1
  pub clock_counts : (w : W) → out.attempts w ≤ out.attempts (out.clock w).1
  pub get_range_counts : (q : Query) (w : W) → out.attempts w ≤ out.attempts (out.get_range q w).1
  pub upsert_many_counts :
      (page : List (Stored D)) (w : W) → out.attempts w ≤ out.attempts (out.upsert_many page w).1
  pub observe_counts : (event : Event) (w : W) → out.attempts w ≤ out.attempts (out.observe event w)
  pub get_klines_counts :
      (request : Request) (w w' : W) (page : List (Stored D))
      → out.get_klines request w ≡ (ok page, w')
      → out.attempts w < out.attempts w'

module _ {W D : Type 0} (out : Outside W D) (counting : Counting out) (p : Planner)
    (q : Query) where
  pub after_call :
      {A : Type 0} (r : Result A × W) (a : A) (w w' : W)
      → out.attempts w ≤ out.attempts r.1
      → r ≡ (ok a, w')
      → out.attempts w ≤ out.attempts w'
  after_call r a w w' h e = subst (λ x. out.attempts w ≤ out.attempts x.1) e h

  pub valid_now-counts :
      (w w' : W) (t : Time) → valid_now out p q w ≡ (ok t, w') → out.attempts w ≤ out.attempts w'
  valid_now-counts w w' t h = after_call _ t w w' (either (validate p q (out.clock w).0)) h
    where
      either :
          (r : Result (Calendar × ℤ))
          → out.attempts w
            ≤ out.attempts
                (elim r as (λ x. Result Time × W) [
                  | err e ↦ (err e, (out.clock w).1)
                  | ok accepted ↦ (ok (out.clock w).0, (out.clock w).1)
                ]).1
      either (err e) = counting.clock_counts w
      either (ok c) = counting.clock_counts w

  pub read-counts :
      (refreshed : Refreshes) (w w' : W) (found : List (Stored D) × List Request)
      → read out p q refreshed w ≡ (ok found, w')
      → out.attempts w ≤ out.attempts w'
  unfolding read
  read-counts refreshed w w' found h =
      let (u, w1, alive_first, h1) = then-ok (alive out w) _ h in
      let (now, w2, timed, h2) = then-ok (valid_now out p q w1) _ h1 in
      let (rows, w3, got, h3) = then-ok (out.get_range q w2) _ h2 in
      let (v, w4, alive_last, h4) = then-ok (alive out w3) _ h3 in
      let a1 = after_call (alive out w) u w w1 (counting.failed_counts w) alive_first in
      let a2 = valid_now-counts w1 w2 now timed in
      let a3 = after_call (out.get_range q w2) rows w2 w3 (counting.get_range_counts q w2) got in
      let a4 = after_call (alive out w3) v w3 w4 (counting.failed_counts w3) alive_last in
      let a5 : w4 ≡ w' = ap (λ x. x.1) h4 in omega (arith, ap out.attempts a5)
