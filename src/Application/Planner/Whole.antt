-- ===== src/Application/Planner/Whole.antt =====
-- `Planner.Plan` and `Planner.Validate` of internal/application/kline/fetch_planner.go as wholes,
-- in the slot numbers of the calendar.
use market_data.Prelude.{
  suc, ◌+◌, ◌-◌, ◌≤◌, ◌<◌, ◌≡◌, sym, ap, ◌∙◌, subst, arith, true, ◌||◌, ltb, leb, List, none,
  if◌then◌else◌, Bool-cases, inl, inr,
}
use market_data.Prelude.Int.{ℤ, pos, pos_part}
use market_data.Errors.{both, wrapped, invalid_range, Result, ok, err, >>=-eq-ok, time_overflow}
use market_data.Domain.Grid.{slot_mono, slot-le, index-slot}
use market_data.Domain.Names.{valid_timeframe}
use market_data.Domain.Time.{Time, after, zero_time}
use market_data.Domain.Timeframe.{Calendar, new_calendar, next}
use market_data.Domain.Timeframe.Floor.{end_time}
use market_data.Domain.Timeframe.Boundaries.{boundaries, slot_at}
use market_data.Domain.Timeframe.Flooring.{floor-slot_at}
use market_data.Domain.Timeframe.Shift.{IsBoundary}
use market_data.Domain.Timeframe.ShiftMonths.{overflow_below}
use market_data.Domain.Timeframe.Count.{history_cutoff-slot}
use market_data.Domain.Timeframe.RoundTrip.{count_slots-range, shift_up-slot}
use market_data.Application.Series.{Query, Request, Stored}
use market_data.Application.Planner.{Planner, validate, check_current}
use market_data.Application.Planner.Loading.{Refreshes, plan, final_slots, accept_rows}
use market_data.Application.Planner.Pages.{IsPlan, IsPending}
use market_data.Application.Planner.Loop.{pages-IsPlan}
use market_data.Application.Planner.Settled.{settled, final_slots-settled}
use market_data.Application.Planner.Validity.{validate-Accepted, new_calendar-interval, wrapped-ok}

calendar_unique : (m : Result Calendar) (c c' : Calendar) → m ≡ ok c → m ≡ ok c' → c ≡ c'
calendar_unique m c c' h k = cc

-- For the calendar that `NewCalendar` gives, a successful plan loads every slot of the query that
-- the cached rows do not settle, in pages that are ascending and disjoint, each with as many
-- slots as its limit says and no more than the limit of a page, and each from a slot that needs
-- loading to one that does.
pub plan-IsPlan :
    {D : Type 0} (p : Planner) (q : Query) (cached : List (Stored D)) (now : Time)
    (refreshed : Refreshes) (c : Calendar) (requests : List Request)
    → new_calendar q.exchange q.market q.interval ≡ ok c
    → plan p q cached now refreshed ≡ ok requests
    → IsPlan c q p.page_limit
        (settled refreshed now cached)
        ((boundaries c).index q.from)
        ((boundaries c).index q.to)
        requests
unfolding plan IsPending
plan-IsPlan p q cached now refreshed c requests known h =
    let ((c', count), valid, h1) = >>=-eq-ok (validate p q now) _ h in
    let accepted = validate-Accepted p q now c' count valid in
    let same =
      calendar_unique (new_calendar q.exchange q.market q.interval) c' c accepted.calendar known in
    let (final, found, h2) = >>=-eq-ok (final_slots q c' count cached now) _ h1 in
    let interval = new_calendar-interval q.exchange q.market q.interval c' accepted.calendar in
    let i = (boundaries c').index q.from in
    let j = (boundaries c').index q.to in
    let (f, t, n, ordered, fits) =
      count_slots-range c' interval q.from q.to p.history_candles count accepted.size in
    let length_of : pos_part count ≡ j - i = ap pos_part n in
    let total : i + 0 + pos_part count ≡ j = omega arith in
    let start : i + 0 ≡ i = omega arith in
    let loop =
      pages-IsPlan c' q p.page_limit (settled refreshed now cached)
        (accept_rows refreshed now cached final) i (pos_part count) 0 q.from none requests interval
        accepted.positive.1 (λ t. final_slots-settled q c' count cached now t refreshed final found)
        (sym f.1 ∙ ap (boundaries c').slot (sym start)) tt h2 in
    subst
      (λ x.
        IsPlan x q p.page_limit (settled refreshed now cached) ((boundaries x).index q.from)
          ((boundaries x).index q.to) requests)
      same
      (subst (λ k. IsPlan c' q p.page_limit (settled refreshed now cached) k j requests) start
        (subst (λ k. IsPlan c' q p.page_limit (settled refreshed now cached) (i + 0) k requests)
          total loop))

floor-ok :
    (t s r : Time)
    → (if ltb t zero_time || leb end_time t
        then err time_overflow
        else if ltb s zero_time
        then err time_overflow
        else ok s)
      ≡ ok r
    → (zero_time ≤ t) × (t < end_time) × (zero_time ≤ s) × (s ≡ r)
floor-ok t s r h = ground arith

overflow_below-ok : (r t : Time) → overflow_below r ≡ ok t → r ≡ t
overflow_below-ok r t h = ground arith

-- The end of a query that passes the test of the current slot.
current_end :
    (c : Calendar) (q : Query) (current : Time)
    → valid_timeframe c.interval ≡ true
    → slot_at c current ≡ current
    → check_current c q current ≡ ok tt
    → q.to ≤ (boundaries c).slot (suc ((boundaries c).index current))
unfolding check_current next
current_end c q current valid starts h = elim (Bool-cases (after q.to current)) [
  | inr early ↦
      let step =
        slot_mono (boundaries c) ((boundaries c).index current) (suc ((boundaries c).index current))
          (omega arith) in
      ground arith
  | inl late ↦
      let h' = rw late at h in
      let (end, moved, h1) = >>=-eq-ok (wrapped (both invalid_range) (next c current)) _ h' in
      let (lands, number, first, last) =
        shift_up-slot c valid current end 1
          (wrapped-ok (both invalid_range) (next c current) end moved) in
      let up : (boundaries c).index current + 1 ≡ suc ((boundaries c).index current) =
        omega arith in
      let within : q.to ≤ end = ground arith in
      subst (λ t. q.to ≤ t) (sym lands ∙ ap (boundaries c).slot up) within
]

-- A query that `Validate` accepts runs between two boundaries of its calendar, in this order. It
-- has at most the configured number of slots, starts at most as many slots before the slot of the
-- clock, and ends with that slot at the latest.
pub validate-window :
    (p : Planner) (q : Query) (now : Time) (c : Calendar) (count : ℤ)
    → validate p q now ≡ ok (c, count)
    → let i = (boundaries c).index q.from in
      let j = (boundaries c).index q.to in
      let current = (boundaries c).index now in
      IsBoundary c q.from
      × IsBoundary c q.to
      × (i ≤ j)
      × (count ≡ pos (j - i))
      × (j - i ≤ p.history_candles)
      × (current - p.history_candles ≤ i)
      × (j ≤ suc current)
validate-window p q now c count h =
    let a = validate-Accepted p q now c count h in
    let valid = new_calendar-interval q.exchange q.market q.interval c a.calendar in
    let (f, t, n, ordered, fits) =
      count_slots-range c valid q.from q.to p.history_candles count a.size in
    let (z, late, early, at_current) =
      floor-ok now (slot_at c now) a.current (sym (floor-slot_at c now valid) ∙ a.floored) in
    let k = (boundaries c).index now in
    let number : (boundaries c).index a.current ≡ k =
      ap (boundaries c).index (sym at_current) ∙ index-slot (boundaries c) k in
    let lands = overflow_below-ok ((boundaries c).slot (k - p.history_candles)) a.cutoff (
      sym (history_cutoff-slot c valid now p.history_candles a.positive.0 late z early)
      ∙ a.retained) in
    let last =
      current_end c q a.current valid (ap (boundaries c).slot number ∙ at_current) a.ends in
    (
      f,
      t,
      ordered,
      n,
      fits,
      slot-le (boundaries c) (k - p.history_candles) ((boundaries c).index q.from) (
          subst (λ x. (boundaries c).slot (k - p.history_candles) ≤ x) (sym f.1)
            (subst (λ x. x ≤ q.from) (sym lands) a.kept)),
      slot-le (boundaries c) ((boundaries c).index q.to) (suc k) (
          subst (λ x. x ≤ (boundaries c).slot (suc k)) (sym t.1)
            (subst (λ x. q.to ≤ (boundaries c).slot (suc x)) number last)),
    )
