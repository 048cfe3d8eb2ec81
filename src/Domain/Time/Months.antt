-- ===== src/Domain/Time/Months.antt =====
-- The months of `Year` and `Month` of package time, as a grid (internal/domain/timeframe.go).
use market_data.Prelude.{
  ℕ, suc, ◌+◌, ◌-◌, ◌*◌, ◌/◌, ◌%◌, ◌≤◌, ◌<◌, ◌≡◌, refl, arith, dec_lt, sym, subst, ◌∙◌,
}
use market_data.Domain.Grid.{Grid}
use market_data.Domain.Time.{
  year_start, year_of_day, leap, month_start, month_of_day, year, month, date, day, second, Time,
}

pub year_of_day_bounds :
    (d : ℕ) → (year_start (year_of_day d) ≤ d) × (d < year_start (suc (year_of_day d)))
unfolding year_start year_of_day
year_of_day_bounds d = omega arith

pub leap_lem : (y : ℕ) → (leap y ≤ 1) × (year_start (suc y) ≡ year_start y + 365 + leap y)
unfolding leap year_start
leap_lem y = omega arith

pub month_of_day_bounds :
    (l n : ℕ)
    → l ≤ 1
    → n < 365 + l
    → (month_start l (month_of_day l n) ≤ n)
      × (n < month_start l (suc (month_of_day l n)))
      × (month_of_day l n < 12)
unfolding month_start month_of_day
month_of_day_bounds l n h k = ground arith

pub month_start_step : (l m : ℕ) → m < 12 → month_start l m < month_start l (suc m)
unfolding month_start
month_start_step l m h = ground arith

-- Month k since the absolute zero year.
unfoldable pub month_slot : ℕ → Time
unfolding date
month_slot k = date (k / 12) (k % 12)

unfoldable pub month_index : Time → ℕ
unfolding year month
month_index t = 12 * year t + month t

pub month_slot_lem : (y m : ℕ) → m < 12 → month_slot (12 * y + m) ≡ date y m
unfolding month_slot
month_slot_lem y m h =
    let q : (12 * y + m) / 12 ≡ y = omega arith in
    let r : (12 * y + m) % 12 ≡ m = omega arith in rw (q, r)

month_start_ends : (l : ℕ) → (month_start l 0 ≡ 0) × (month_start l 12 ≡ 365 + l)
unfolding month_start
month_start_ends l = (refl, refl)

date-suc_year : (y : ℕ) → date (suc y) 0 ≡ (year_start y + month_start (leap y) 12) * day * second
unfolding date
date-suc_year y =
    omega (arith, month_start_ends (leap y), month_start_ends (leap (suc y)), leap_lem y)

-- The month after month m of year y starts where month m ends, in December too.
month_slot-suc :
    (y m : ℕ)
    → m < 12
    → month_slot (suc (12 * y + m)) ≡ (year_start y + month_start (leap y) (suc m)) * day * second
unfolding date
month_slot-suc y m h = elim (dec_lt m 11) [
  | yes lt ↦
      let e : suc (12 * y + m) ≡ 12 * y + suc m = omega arith in
      rw e (month_slot_lem y (suc m) (omega arith))
  | no ge ↦
      let last : m ≡ 11 = omega arith in
      let e : suc (12 * y + 11) ≡ 12 * suc y + 0 = omega arith in
      rw (last, e) (month_slot_lem (suc y) 0 (omega arith) ∙ date-suc_year y)
]

pub month_slot_step : (k : ℕ) → month_slot k < month_slot (suc k)
unfolding date
month_slot_step k =
    let y = k / 12 in
    let m = k % 12 in
    let e : k ≡ 12 * y + m = omega arith in
    subst (λ n. month_slot n < month_slot (suc n)) (sym e)
      (omega (
        arith,
        month_slot_lem y m (omega arith),
        month_slot-suc y m (omega arith),
        month_start_step (leap y) m (omega arith),
      ))

-- A time lies in the month that `Year` and `Month` give.
pub month_bounds :
    (t : ℕ)
    → (month t < 12)
      × (date (year t) (month t) ≤ t)
      × (t < (year_start (year t) + month_start (leap (year t)) (suc (month t))) * day * second)
unfolding date year month
month_bounds t =
    let d = t / second / day in
    let y = year_of_day d in
    let (first, last) = year_of_day_bounds d in
    let (l1, size) = leap_lem y in
    let (from, upto, m12) = month_of_day_bounds (leap y) (d - year_start y) l1 (omega arith) in
    (m12, omega arith, omega arith)

pub month_index_lower : (t : ℕ) → month_slot 0 ≤ t → month_slot (month_index t) ≤ t
unfolding month_index
month_index_lower t h =
    let (m12, from, upto) = month_bounds t in rw (month_slot_lem (year t) (month t) m12) from

pub month_index_upper : (t : ℕ) → month_slot 0 ≤ t → t < month_slot (suc (month_index t))
unfolding month_index
month_index_upper t h =
    let (m12, from, upto) = month_bounds t in rw (month_slot-suc (year t) (month t) m12) upto

-- The months of the calendar, with the month of `Year` and `Month`.
abbrev pub months : Grid
months = record {
  slot = month_slot;
  index = month_index;
  slot_step = month_slot_step;
  index_lower = month_index_lower;
  index_upper = month_index_upper;
}
