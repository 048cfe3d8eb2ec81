-- ===== src/Domain/Timeframe/Shift.antt =====
-- `ValidateBoundary` and `Shift` against the grid of slot boundaries.
use native.Mathlib.Nat.{mod-lt, mul-le-mul_right, add-mul}
use market_data.Prelude.{
  ℕ, suc, ◌+◌, ◌-◌, ◌*◌, ◌/◌, ◌≤◌, ◌<◌, ◌≡◌, arith, true, false, ◌∙◌, sym, inl, inr, ap, dec_le,
}
use market_data.Prelude.Int.{pos, ◌-ℤ◌}
use market_data.Errors.{ok}
use market_data.Domain.Names.{seconds, is_month, valid_timeframe}
use market_data.Domain.Time.{Time, zero_time, second, unix_epoch, year_one}
use market_data.Domain.Timeframe.ShiftSeconds.{shift_seconds-up, shift_seconds-down}
use market_data.Domain.Timeframe.ShiftMonths.{
  shift_months-up, shift_months-down, overflow_above, overflow_below,
}
use market_data.Domain.Timeframe.Boundaries.{
  boundaries, slot_at, InYears, phase, fixed_slot, valid_cases, months-boundaries, seconds_bound,
}
use market_data.Domain.Timeframe.Flooring.{floor-slot_at}
use market_data.Domain.Timeframe.{Calendar, validate_boundary, shift}

-- A slot boundary within the years 1 to 9999.
abbrev pub IsBoundary : Calendar → Time → Type 0
IsBoundary c t = InYears t × (slot_at c t ≡ t)

module _ (c : Calendar) (valid : valid_timeframe c.interval ≡ true) where
  pub validate_boundary_of : (t : Time) → IsBoundary c t → validate_boundary c t ≡ ok tt
  unfolding validate_boundary
  validate_boundary_of t h = ground (arith, floor-slot_at c t valid)

  pub validate_boundary-IsBoundary : (t : Time) → validate_boundary c t ≡ ok tt → IsBoundary c t
  unfolding validate_boundary
  validate_boundary-IsBoundary t h = ground (arith, floor-slot_at c t valid)

  pub fixed_boundary :
      (t : Time)
      → is_month c.interval ≡ false
      → 0 < seconds c.interval
      → slot_at c t ≡ t
      → t / second ≡ (boundaries c).index t * seconds c.interval + phase c
  fixed_boundary t fixed positive e =
      omega (arith, fixed_slot c fixed positive ((boundaries c).index t))

  fixed_up :
      (b : Time) (d : ℕ)
      → is_month c.interval ≡ false
      → 0 < seconds c.interval
      → slot_at c b ≡ b
      → (boundaries c).slot ((boundaries c).index b + d)
        ≡ (b / second + d * seconds c.interval) * second
  fixed_up b d fixed positive e =
      rw
        (
          fixed_slot c fixed positive ((boundaries c).index b + d),
          fixed_boundary b fixed positive e,
        )
        (omega arith)

  fixed_down :
      (b : Time) (d : ℕ)
      → is_month c.interval ≡ false
      → 0 < seconds c.interval
      → slot_at c b ≡ b
      → d ≤ (boundaries c).index b
      → ((boundaries c).slot ((boundaries c).index b - d)
          ≡ (b / second - d * seconds c.interval) * second)
        × (d * seconds c.interval ≤ b / second)
  fixed_down b d fixed positive e le =
      let n = seconds c.interval in
      let i = (boundaries c).index b in
      let whole : i - d + d ≡ i = omega arith in
      let split : (i - d) * n + d * n ≡ i * n = sym (add-mul (i - d) d n) ∙ ap (λ k. k * n) whole in
      rw (fixed_slot c fixed positive (i - d), fixed_boundary b fixed positive e)
        (omega arith, omega arith)

  below_first :
      (b : Time) (d : ℕ)
      → is_month c.interval ≡ false
      → 0 < seconds c.interval
      → slot_at c b ≡ b
      → (boundaries c).index b < d
      → (b / second < year_one + d * seconds c.interval)
        × ((boundaries c).slot ((boundaries c).index b - d) < zero_time)
  below_first b d fixed positive e gt =
      let n = seconds c.interval in
      let i = (boundaries c).index b in
      let more = mul-le-mul_right {m = suc i} {n = d} n gt in
      let none_left : i - d ≡ 0 = omega arith in
      let small = mod-lt (unix_epoch + c.anchor) positive in
      (
        omega (arith, fixed_boundary b fixed positive e),
        rw none_left (omega (arith, fixed_slot c fixed positive 0, seconds_bound c.interval)),
      )

  -- `Shift` of a boundary of a valid calendar by d slots up: the boundary d further on, or an
  -- error if that lies after year 9999.
  pub shift_up :
      (b : Time) (d : ℕ)
      → IsBoundary c b
      → shift c b (pos d) ≡ overflow_above ((boundaries c).slot ((boundaries c).index b + d))
  unfolding shift
  shift_up b d h = elim (valid_cases c.interval valid) [
    | inl monthly ↦
        rw (validate_boundary_of b h, monthly, months-boundaries c monthly, overflow_above)
          (shift_months-up b d h.0)
    | inr (fixed, positive) ↦
        rw (validate_boundary_of b h, fixed, shift_seconds-up (seconds c.interval) b d positive h.0)
          (ap overflow_above (sym (fixed_up b d fixed positive h.1)))
  ]

  -- `Shift` of a boundary of a valid calendar by d slots down: the boundary d before, or an error
  -- if that lies before year 1.
  pub shift_down :
      (b : Time) (d : ℕ)
      → IsBoundary c b
      → shift c b (pos 0 -ℤ pos d)
        ≡ overflow_below ((boundaries c).slot ((boundaries c).index b - d))
  unfolding shift
  shift_down b d h = elim (valid_cases c.interval valid) [
    | inl monthly ↦
        rw (validate_boundary_of b h, monthly, months-boundaries c monthly, overflow_below)
          (shift_months-down b d h.0)
    | inr (fixed, positive) ↦
        rw
          (
            validate_boundary_of b h,
            fixed,
            shift_seconds-down (seconds c.interval) b d positive h.0,
          )
          (elim (dec_le d ((boundaries c).index b)) [
            | yes le ↦ ground (arith, fixed_down b d fixed positive h.1 le)
            | no gt ↦ ground (arith, below_first b d fixed positive h.1)
          ])
  ]
