-- ===== src/Domain/Timeframe/Count.antt =====
-- `CountSlots` and `HistoryCutoff` against the grid of slot boundaries.
use native.Mathlib.Nat.{mul-div_cancel, add-mul}
use market_data.Prelude.{
  ℕ, ◌+◌, ◌-◌, ◌*◌, ◌/◌, ◌≤◌, ◌<◌, ◌≡◌, arith, if◌then◌else◌, ltb, true, false, ◌||◌, ◌∙◌, sym, inl,
  inr, ap, dec_lt,
}
use market_data.Prelude.Int.{ℤ, pos, ltb_ℤ, ◌+ℤ◌, ◌-ℤ◌, ◌*ℤ◌}
use market_data.Errors.{ok, err, invalid_slot_range, slot_limit}
use market_data.Domain.Grid.{slot_mono, index_mono, index-slot}
use market_data.Domain.Names.{seconds, is_month, valid_timeframe}
use market_data.Domain.Time.{Time, year, month, unix, second, zero_time}
use market_data.Domain.Time.Months.{month_index}
use market_data.Domain.Timeframe.Boundaries.{
  boundaries, slot_at, valid_cases, months-boundaries, first_boundary, slot_at_bounds,
}
use market_data.Domain.Timeframe.Flooring.{floor-slot_at}
use market_data.Domain.Timeframe.Floor.{end_time}
use market_data.Domain.Timeframe.ShiftMonths.{overflow_below}
use market_data.Domain.Timeframe.Shift.{
  shift_down, IsBoundary, validate_boundary_of, fixed_boundary,
}
use market_data.Domain.Timeframe.{Calendar, difference, count_slots, history_cutoff}

month_difference :
    (y m y' m' : ℕ)
    → 12 * y + m ≤ 12 * y' + m'
    → (pos y' -ℤ pos y) *ℤ pos 12 +ℤ (pos m' -ℤ pos m) ≡ pos (12 * y' + m' - (12 * y + m))
unfolding ◌+ℤ◌ ◌-ℤ◌ ◌*ℤ◌
month_difference y m y' m' h = ground arith

unix_difference : (s t : Time) → s ≤ t → unix t -ℤ unix s ≡ pos (t / second - s / second)
unfolding unix ◌-ℤ◌
unix_difference s t h = ground arith

monthly_difference :
    (c : Calendar) (from to : Time)
    → is_month c.interval ≡ true
    → (boundaries c).index from ≤ (boundaries c).index to
    → difference c from to ≡ pos ((boundaries c).index to - (boundaries c).index from)
unfolding month_index
monthly_difference c from to monthly le =
    let i = ap (λ g. g.index from) (months-boundaries c monthly) in
    let j = ap (λ g. g.index to) (months-boundaries c monthly) in
    rw (i, j, monthly, difference)
      (month_difference (year from) (month from) (year to) (month to) (omega arith))

fixed_difference :
    (c : Calendar) (valid : valid_timeframe c.interval ≡ true) (from to : Time)
    → is_month c.interval ≡ false
    → 0 < seconds c.interval
    → slot_at c from ≡ from
    → slot_at c to ≡ to
    → (boundaries c).index from ≤ (boundaries c).index to
    → difference c from to ≡ pos ((boundaries c).index to - (boundaries c).index from)
fixed_difference c valid from to fixed positive f t le =
    let n = seconds c.interval in
    let i = (boundaries c).index from in
    let j = (boundaries c).index to in
    let whole : j - i + i ≡ j = omega arith in
    let ordered = slot_mono (boundaries c) i j le in
    let e : to / second - from / second ≡ (j - i) * n = omega (
      arith,
      fixed_boundary c valid from fixed positive f,
      fixed_boundary c valid to fixed positive t,
      sym (add-mul (j - i) i n) ∙ ap (λ k. k * n) whole,
    ) in
    rw (fixed, difference, unix_difference from to (omega arith), e)
      (ap pos (mul-div_cancel (j - i) positive))

module _ (c : Calendar) (valid : valid_timeframe c.interval ≡ true) where
  -- The difference of two boundaries is the number of slots between them.
  difference-index :
      (from to : Time)
      → IsBoundary c from
      → IsBoundary c to
      → (boundaries c).index from ≤ (boundaries c).index to
      → difference c from to ≡ pos ((boundaries c).index to - (boundaries c).index from)
  difference-index from to f t le = elim (valid_cases c.interval valid) [
    | inl monthly ↦ monthly_difference c from to monthly le
    | inr (fixed, positive) ↦ fixed_difference c valid from to fixed positive f.1 t.1 le
  ]

  -- `CountSlots` between two boundaries of a valid calendar, for any limit: the number of slots
  -- between them, or an error if the limit is negative, if they are in the wrong order or if the
  -- number exceeds the limit.
  pub count_slots-index :
      (from to : Time) (limit : ℤ)
      → IsBoundary c from
      → IsBoundary c to
      → count_slots c from to limit ≡ (
          let count = (boundaries c).index to - (boundaries c).index from in
          if ltb_ℤ limit (pos 0) || ltb to from
          then err invalid_slot_range
          else if ltb_ℤ limit (pos count)
          then err slot_limit
          else ok (pos count))
  unfolding count_slots
  count_slots-index from to limit f t = elim (dec_lt to from) [
    | yes lt ↦
        rw (validate_boundary_of c valid from f, validate_boundary_of c valid to t) (ground arith)
    | no ge ↦
        let low = first_boundary c valid in
        rw
          (
            validate_boundary_of c valid from f,
            validate_boundary_of c valid to t,
            difference-index from to f t
                (index_mono (boundaries c) from to (omega arith) (omega arith)),
          )
          (ground arith)
  ]

  -- The same for a limit that is not negative.
  pub count_slots_within :
      (from to : Time) (limit : ℕ)
      → IsBoundary c from
      → IsBoundary c to
      → count_slots c from to (pos limit) ≡ (
          let count = (boundaries c).index to - (boundaries c).index from in
          if ltb to from
          then err invalid_slot_range
          else if ltb limit count
          then err slot_limit
          else ok (pos count))
  count_slots_within from to limit f t = count_slots-index from to (pos limit) f t ∙ ground arith

  slot_at-IsBoundary :
      (t : Time)
      → t < end_time
      → zero_time ≤ slot_at c t
      → zero_time ≤ t
      → IsBoundary c (slot_at c t)
  slot_at-IsBoundary t late early z = (
    (early, omega (arith, slot_at_bounds c t valid z)),
    ap (boundaries c).slot (index-slot (boundaries c) _),
  )

  -- For a valid calendar, n > 0 and a clock in the years 1 to 9999 whose slot starts in year 1 or
  -- later, `HistoryCutoff` is the boundary n slots before the slot of the clock, or an error if
  -- that lies before year 1.
  pub history_cutoff-slot :
      (now : Time) (n : ℕ)
      → 0 < n
      → now < end_time
      → zero_time ≤ now
      → zero_time ≤ slot_at c now
      → history_cutoff c now (pos n)
        ≡ overflow_below ((boundaries c).slot ((boundaries c).index now - n))
  unfolding history_cutoff
  history_cutoff-slot now n positive late z early = rw (floor-slot_at c now valid) (
      ground (
        arith,
        shift_down c valid (slot_at c now) n (slot_at-IsBoundary now late early z),
        index-slot (boundaries c) ((boundaries c).index now),
      ))
