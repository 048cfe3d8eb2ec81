-- ===== src/Domain/Timeframe/Boundaries.antt =====
-- The slot boundaries of a calendar of internal/domain/timeframe.go as a grid.
use native.Mathlib.Nat.{mod-lt, mod-mod, lt-div-mul-add, div-mul-le_self}
use market_data.Prelude.{
  ℕ, suc, ◌+◌, ◌-◌, ◌*◌, ◌/◌, ◌%◌, ◌≤◌, ◌<◌, ◌≡◌, refl, arith, if◌then◌else◌, true, false, ◌∙◌, sym,
  ◌⊎◌, inl, inr, ap,
}
use market_data.Domain.Grid.{Grid}
use market_data.Domain.Names.{Timeframe, seconds, is_month, valid_timeframe}
use market_data.Domain.Time.{
  absolute_year_one, year_start, month_start, leap, Time, zero_time, second, unix_epoch,
}
use market_data.Domain.Time.Months.{months, month_index, month_slot}
use market_data.Domain.Timeframe.Floor.{end_time, floor_seconds_lem}
use market_data.Domain.Timeframe.Remainder.{past, past-lt, past_congruent, multiple_unique}
use market_data.Domain.Timeframe.{Calendar, floor_seconds}

module _ (m p : ℕ) where
  unfoldable pub seconds_slot : ℕ → Time
  seconds_slot k = (k * suc m + p) * second

  unfoldable pub seconds_index : Time → ℕ
  seconds_index t = (t / second - p) / suc m

  pub seconds_slot_step : (k : ℕ) → seconds_slot k < seconds_slot (suc k)
  unfolding seconds_slot
  seconds_slot_step k = omega arith

  pub seconds_index_lower : (t : Time) → seconds_slot 0 ≤ t → seconds_slot (seconds_index t) ≤ t
  unfolding seconds_slot seconds_index
  seconds_index_lower t h = omega (arith, div-mul-le_self (t / second - p) (suc m))

  pub seconds_index_upper :
      (t : Time) → seconds_slot 0 ≤ t → t < seconds_slot (suc (seconds_index t))
  unfolding seconds_slot seconds_index
  seconds_index_upper t h =
      omega (arith, lt-div-mul-add {a = t / second - p} {b = suc m} (omega arith))

  -- Boundaries suc m seconds apart, the first p seconds after the origin.
  unfoldable pub seconds_grid : Grid
  unfolding seconds_slot seconds_index
  seconds_grid = record {
    slot = seconds_slot;
    index = seconds_index;
    slot_step = seconds_slot_step;
    index_lower = seconds_index_lower;
    index_upper = seconds_index_upper;
  }

abbrev pub phase : Calendar → ℕ
phase c = (unix_epoch + c.anchor) % seconds c.interval

unfoldable pub boundaries : Calendar → Grid
unfolding seconds_grid month_slot month_index
boundaries c =
    if is_month c.interval then months else seconds_grid (seconds c.interval - 1) (phase c)

-- The years 1 to 9999.
abbrev pub InYears : Time → Type 0
InYears t = (zero_time ≤ t) × (t < end_time)

-- The boundary at or before t.
abbrev pub slot_at : Calendar → Time → Time
slot_at c t = (boundaries c).slot ((boundaries c).index t)

pub seconds_bound : (i : Timeframe) → seconds i ≤ 604800
unfolding seconds
seconds_bound i = ground arith

-- The two kinds of calendar: calendar months, and slots of a fixed number of seconds.
pub months-boundaries : (c : Calendar) → is_month c.interval ≡ true → boundaries c ≡ months
unfolding boundaries
months-boundaries c h = rw (h, boundaries) refl

module _ (c : Calendar) (fixed : is_month c.interval ≡ false)
    (positive : 0 < seconds c.interval) where
  pub fixed_slot : (k : ℕ) → (boundaries c).slot k ≡ (k * seconds c.interval + phase c) * second
  unfolding boundaries seconds_grid
  fixed_slot k =
      let whole : suc (seconds c.interval - 1) ≡ seconds c.interval = omega arith in
      rw (fixed, boundaries) (rw whole refl)

  pub fixed_index :
      (t : Time) → (boundaries c).index t ≡ (t / second - phase c) / seconds c.interval
  unfolding boundaries seconds_grid
  fixed_index t =
      let whole : suc (seconds c.interval - 1) ≡ seconds c.interval = omega arith in
      rw (fixed, boundaries) (rw whole refl)

  pub floor_seconds-slot : (t : Time) → zero_time ≤ t → floor_seconds c t ≡ slot_at c t
  floor_seconds-slot t z =
      let n = seconds c.interval in
      let s = t / second in
      let a = unix_epoch + c.anchor in
      let bound = seconds_bound c.interval in
      let small = mod-lt a positive in
      rw
        (
          fixed_slot ((boundaries c).index t),
          fixed_index t,
          floor_seconds_lem c t positive (omega arith),
        )
        (ap (λ x. x * second)
          (multiple_unique n (a % n) s (past n a s) (past-lt n a s positive)
            (omega (arith, past-lt n a s positive)) (omega (arith, past-lt n a s positive))
            (past_congruent n a s positive (omega arith) ∙ sym (mod-mod a n)) small))

pub valid_cases :
    (i : Timeframe)
    → valid_timeframe i ≡ true
    → (is_month i ≡ true) ⊎ ((is_month i ≡ false) × (0 < seconds i))
unfolding valid_timeframe
valid_cases i h = ground arith

-- Every calendar's first boundary is long before year 1.
pub first_boundary :
    (c : Calendar) → valid_timeframe c.interval ≡ true → (boundaries c).slot 0 ≤ zero_time
unfolding month_slot year_start month_start leap
first_boundary c valid = elim (valid_cases c.interval valid) [
  | inl monthly ↦ rw (months-boundaries c monthly) (omega arith)
  | inr (fixed, positive) ↦
      rw (fixed_slot c fixed positive 0)
        (omega (arith, mod-lt (unix_epoch + c.anchor) positive, seconds_bound c.interval))
]

-- The boundary that `Floor` looks for is at or before t, and the next one is after t.
pub slot_at_bounds :
    (c : Calendar) (t : Time)
    → valid_timeframe c.interval ≡ true
    → zero_time ≤ t
    → (slot_at c t ≤ t) × (t < (boundaries c).slot (suc ((boundaries c).index t)))
slot_at_bounds c t valid z =
    let low = first_boundary c valid in
    ((boundaries c).index_lower t (omega arith), (boundaries c).index_upper t (omega arith))

pub month_of_year_one : month_slot (12 * absolute_year_one) ≡ zero_time
unfolding month_slot year_start month_start leap
month_of_year_one = refl
