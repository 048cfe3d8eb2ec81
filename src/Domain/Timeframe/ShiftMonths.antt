-- ===== src/Domain/Timeframe/ShiftMonths.antt =====
-- `shift` of the calendar of months.

use market_data.Prelude.{
  ℕ, ◌+◌, ◌-◌, ◌*◌, ◌/◌, ◌%◌, ◌≤◌, ◌<◌, ◌≡◌, refl, arith, if◌then◌else◌, ltb, leb, ◌||◌, dec_le,
}
use market_data.Prelude.Int.{pos, pos_part, ◌+ℤ◌, ◌-ℤ◌, ltb_ℤ}
use market_data.Errors.{Result, ok, err, time_overflow}
use market_data.Domain.Grid.{slot_mono, slot_strict}
use market_data.Domain.Time.{
  absolute_year_one, year_start, month_start, leap, Time, year, month, date, zero_time,
}
use market_data.Domain.Time.Months.{months, month_slot, month_index, month_bounds}
use market_data.Domain.Timeframe.Floor.{end_time, before_year_one_lem, after_year_9999_lem}
use market_data.Domain.Timeframe.Boundaries.{InYears, month_of_year_one}
use market_data.Domain.Timeframe.{shift_months}

abbrev pub overflow_above : Time → Result Time
overflow_above r = if leb end_time r then err time_overflow else ok r

abbrev pub overflow_below : Time → Result Time
overflow_below r = if ltb r zero_time then err time_overflow else ok r

months_range :
    (t : Time)
    → InYears t
    → (absolute_year_one ≤ year t) × (year t ≤ absolute_year_one + 9998) × (month t < 12)
months_range t y = (
  ground (arith, before_year_one_lem t),
  ground (arith, after_year_9999_lem t),
  (month_bounds t).0,
)

-- Months from January of year 1 to January of year 10000.
last_month : month_slot (12 * absolute_year_one + 119988) ≡ end_time
unfolding month_slot date year_start month_start leap
last_month = refl

month_slot-ge_end : (k : ℕ) → leb end_time (month_slot k) ≡ leb (12 * absolute_year_one + 119988) k
month_slot-ge_end k = elim (dec_le (12 * absolute_year_one + 119988) k) [
  | yes le ↦ ground (arith, last_month, slot_mono months _ k le)
  | no gt ↦ ground (arith, last_month, slot_strict months k (12 * absolute_year_one + 119988))
]

month_slot-lt_zero : (k : ℕ) → ltb (month_slot k) zero_time ≡ ltb k (12 * absolute_year_one)
month_slot-lt_zero k = elim (dec_le (12 * absolute_year_one) k) [
  | yes le ↦ ground (arith, month_of_year_one, slot_mono months (12 * absolute_year_one) k le)
  | no gt ↦ ground (arith, month_of_year_one, slot_strict months k (12 * absolute_year_one))
]

month_test_up :
    (m d : ℕ)
    → m ≤ 119987
    → (ltb_ℤ (pos d) (pos 0 -ℤ pos m) || ltb_ℤ (pos 119987 -ℤ pos m) (pos d)) ≡ leb 119988 (m + d)
unfolding ◌-ℤ◌
month_test_up m d h = ground arith

month_test_down :
    (m d : ℕ)
    → m ≤ 119987
    → (ltb_ℤ (pos 0 -ℤ pos d) (pos 0 -ℤ pos m) || ltb_ℤ (pos 119987 -ℤ pos m) (pos 0 -ℤ pos d))
      ≡ ltb m d
unfolding ◌-ℤ◌
month_test_down m d h = ground arith

month_sums :
    (m d : ℕ) → (pos_part (pos m +ℤ pos d) ≡ m + d) × (pos_part (pos m +ℤ (pos 0 -ℤ pos d)) ≡ m - d)
unfolding ◌+ℤ◌ ◌-ℤ◌
month_sums m d = (ground arith, ground arith)

date-month_slot :
    (k : ℕ) → date (k / 12 + absolute_year_one) (k % 12) ≡ month_slot (12 * absolute_year_one + k)
unfolding month_slot
date-month_slot k =
    let y : (12 * absolute_year_one + k) / 12 ≡ k / 12 + absolute_year_one = omega arith in
    let m : (12 * absolute_year_one + k) % 12 ≡ k % 12 = omega arith in rw (y, m)

-- `shift_months` moves by d months and refuses exactly to leave the years 1 to 9999.
pub shift_months-up :
    (t : Time) (d : ℕ)
    → InYears t
    → shift_months t (pos d) ≡ overflow_above (month_slot (month_index t + d))
unfolding shift_months month_index
shift_months-up t d y =
    let (low, high, m12) = months_range t y in
    let m = (year t - absolute_year_one) * 12 + month t in
    let k : 12 * year t + month t + d ≡ 12 * absolute_year_one + (m + d) = omega arith in
    rw
      (
        month_test_up m d (omega arith),
        (month_sums m d).0,
        date-month_slot (m + d),
        k,
        month_slot-ge_end (12 * absolute_year_one + (m + d)),
      )
      (ground arith)

pub shift_months-down :
    (t : Time) (d : ℕ)
    → InYears t
    → shift_months t (pos 0 -ℤ pos d) ≡ overflow_below (month_slot (month_index t - d))
unfolding shift_months month_index
shift_months-down t d y =
    let (low, high, m12) = months_range t y in
    let m = (year t - absolute_year_one) * 12 + month t in
    rw
      (
        month_test_down m d (omega arith),
        (month_sums m d).1,
        date-month_slot (m - d),
        month_slot-lt_zero (12 * year t + month t - d),
      )
      (elim (dec_le d m) [
        | yes le ↦
            let e : 12 * absolute_year_one + (m - d) ≡ 12 * year t + month t - d = omega arith in
            rw e (ground arith)
        | no gt ↦ ground arith
      ])
