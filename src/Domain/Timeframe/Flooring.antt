-- ===== src/Domain/Timeframe/Flooring.antt =====
-- `Floor` of internal/domain/timeframe.go against the grid of slot boundaries.

use market_data.Prelude.{
  ◌*◌, ◌≤◌, ◌≡◌, refl, arith, if◌then◌else◌, ltb, leb, ◌||◌, Bool, not, true, false, sym, inl, inr,
  subst,
}
use market_data.Errors.{ok, err, guard, ◌>>◌, time_overflow}
use market_data.Domain.Grid.{slot_mono, index_mono, index-slot}
use market_data.Domain.Names.{is_month, valid_timeframe}
use market_data.Domain.Time.{absolute_year_one, Time, year, month, date, zero_time}
use market_data.Domain.Time.Months.{months, month_index, month_slot_lem, month_bounds}
use market_data.Domain.Timeframe.Floor.{end_time, before_year_one_lem, after_year_9999_lem}
use market_data.Domain.Timeframe.{Calendar, floor, floor_seconds}
use market_data.Domain.Timeframe.Boundaries.{
  slot_at, valid_cases, months-boundaries, month_of_year_one, floor_seconds-slot,
}

-- Calendar months do not start before year 1 if one of their days does not.
slot_at-month :
    (c : Calendar) (t : Time)
    → is_month c.interval ≡ true
    → zero_time ≤ t
    → (date (year t) (month t) ≡ slot_at c t) × (zero_time ≤ slot_at c t)
unfolding month_index
slot_at-month c t monthly z =
    let one = month_of_year_one in
    let first = slot_mono months 0 (12 * absolute_year_one) (omega arith) in
    rw (months-boundaries c monthly, slot_at)
      (
        sym (month_slot_lem (year t) (month t) (month_bounds t).0),
        omega (
          arith,
          slot_mono months (12 * absolute_year_one) (month_index t) (
              subst (λ k. k ≤ month_index t) (index-slot months (12 * absolute_year_one))
                (index_mono months _ t (omega arith) (omega arith))),
        ),
      )

-- The range tests of `Floor`, where a time from year 1 on is floored to s.
range_tests :
    (early late : Bool) (f s : Time)
    → (early ≡ false → f ≡ s)
    → (do
      guard (not (early || late)) time_overflow
      guard (not (ltb f zero_time)) time_overflow
      ok f)
      ≡ (if early || late
          then err time_overflow
          else if ltb s zero_time
          then err time_overflow
          else ok s)
range_tests true late f s h = refl
range_tests false true f s h = refl
range_tests false false f s h = rw (h refl) (bound_test (ltb s zero_time))
  where
    bound_test :
        (b : Bool)
        → (do guard (not b) time_overflow; ok s) ≡ (if b then err time_overflow else ok s)
    bound_test true = refl
    bound_test false = refl

month_tests :
    (early late : Bool) (f s : Time)
    → (early ≡ false → (f ≡ s) × (zero_time ≤ s))
    → (do guard (not (early || late)) time_overflow; ok f) ≡ (
        if early || late
        then err time_overflow
        else if ltb s zero_time
        then err time_overflow
        else ok s)
month_tests true late f s h = refl
month_tests false true f s h = refl
month_tests false false f s h = ground (arith, h refl)

ge_of_test : (t : Time) → ltb t zero_time ≡ false → zero_time ≤ t
ge_of_test t h = ground arith

-- `Floor` of a calendar with a valid interval, on every branch: a time outside the years 1 to
-- 9999 is refused, and so is a time whose slot starts before year 1; any other time is taken to
-- the start of its slot.
pub floor-slot_at :
    (c : Calendar) (t : Time)
    → valid_timeframe c.interval ≡ true
    → floor c t ≡ (
        if ltb t zero_time || leb end_time t
        then err time_overflow
        else if ltb (slot_at c t) zero_time
        then err time_overflow
        else ok (slot_at c t))
unfolding floor
floor-slot_at c t valid = elim (valid_cases c.interval valid) [
  | inl monthly ↦
      rw (valid, monthly, before_year_one_lem t, after_year_9999_lem t)
        (month_tests (ltb t zero_time) (leb end_time t) _ (slot_at c t)
          (λ z. slot_at-month c t monthly (ge_of_test t z)))
  | inr (fixed, positive) ↦
      rw
        (
          valid,
          fixed,
          before_year_one_lem t,
          after_year_9999_lem t,
          before_year_one_lem (floor_seconds c t),
        )
        (range_tests (ltb t zero_time) (leb end_time t) (floor_seconds c t) (slot_at c t)
          (λ z. floor_seconds-slot c fixed positive t (ge_of_test t z)))
]
