-- ===== src/Domain/Timeframe/RoundTrip.antt =====
-- `CountSlots`, `Next` and `Shift` of internal/domain/timeframe.go against each other.
use market_data.Prelude.{
  leb, ℕ, ◌+◌, ◌-◌, ◌≤◌, ◌<◌, ◌≡◌, sym, ◌∙◌, ap, subst, arith, ltb, if◌then◌else◌, dec_lt, true,
}
use market_data.Prelude.Int.{ℤ, pos, ◌-ℤ◌}
use market_data.Errors.{ok, err, >>=-eq-ok, invalid_slot_range, slot_limit}
use market_data.Domain.Grid.{slot_mono, slot_strict, index-slot, index_mono}
use market_data.Domain.Names.{valid_timeframe}
use market_data.Domain.Time.{Time}
use market_data.Domain.Timeframe.Floor.{end_time}
use market_data.Domain.Timeframe.Boundaries.{boundaries, first_boundary}
use market_data.Domain.Timeframe.ShiftMonths.{overflow_above, overflow_below}
use market_data.Domain.Timeframe.Shift.{
  IsBoundary, validate_boundary-IsBoundary, shift_up, shift_down,
}
use market_data.Domain.Timeframe.Count.{count_slots_within}
use market_data.Domain.Timeframe.{Calendar, validate_boundary, shift, next, count_slots}

overflow_above-ok : (r t : Time) → overflow_above r ≡ ok t → (r ≡ t) × (r < end_time)
overflow_above-ok r t h = ground arith

module _ (c : Calendar) (valid : valid_timeframe c.interval ≡ true) where
  shift-IsBoundary : (b t : Time) (d : ℕ) → shift c b (pos d) ≡ ok t → IsBoundary c b
  unfolding shift
  shift-IsBoundary b t d h =
      let (u, checked, h1) = >>=-eq-ok (validate_boundary c b) _ h in
      validate_boundary-IsBoundary c valid b checked

  -- Where `Shift` by d slots up lands.
  pub shift_up-slot :
      (b t : Time) (d : ℕ)
      → shift c b (pos d) ≡ ok t
      → ((boundaries c).slot ((boundaries c).index b + d) ≡ t)
        × ((boundaries c).index t ≡ (boundaries c).index b + d)
        × IsBoundary c b
        × IsBoundary c t
  shift_up-slot b t d h =
      let i = (boundaries c).index b in
      let at_b = shift-IsBoundary b t d h in
      let (lands, within) =
        overflow_above-ok ((boundaries c).slot (i + d)) t (sym (shift_up c valid b d at_b) ∙ h) in
      let number : (boundaries c).index t ≡ i + d =
        subst (λ x. (boundaries c).index x ≡ i + d) lands (index-slot (boundaries c) (i + d)) in
      let later = slot_mono (boundaries c) i (i + d) (omega arith) in
      (lands, number, at_b, ((omega arith, omega arith), ap (boundaries c).slot number ∙ lands))

  -- If `Next` of a valid calendar succeeds, it gives a boundary later than its argument, and the
  -- boundaries later than the argument are those from it on.
  pub next-IsBoundary :
      (b t u : Time)
      → next c b ≡ ok t
      → IsBoundary c u
      → IsBoundary c t × (b < t) × (ltb b u ≡ leb t u)
  unfolding next
  next-IsBoundary b t u h at_u =
      let i = (boundaries c).index b in
      let j = (boundaries c).index u in
      let (lands, number, at_b, at_t) = shift_up-slot b t 1 h in
      let later = slot_strict (boundaries c) i (i + 1) (omega arith) in
      (
        at_t,
        omega arith,
        elim (dec_lt i j) [
          | yes lt ↦
              let above = slot_mono (boundaries c) (i + 1) j (omega arith) in
              let beyond = slot_strict (boundaries c) i j lt in ground arith
          | no ge ↦ let below = slot_mono (boundaries c) j i (omega arith) in ground arith
        ],
      )

  -- If `Shift` of a valid calendar by d slots up succeeds, then shifting its result by d slots down
  -- gives the argument back.
  pub shift-shift :
      (b t : Time) (d : ℕ) → shift c b (pos d) ≡ ok t → shift c t (pos 0 -ℤ pos d) ≡ ok b
  shift-shift b t d h =
      let i = (boundaries c).index b in
      let (lands, number, at_b, at_t) = shift_up-slot b t d h in
      let back : (boundaries c).index t - d ≡ i = omega arith in
      shift_down c valid t d at_t ∙ rw (back, at_b.1, overflow_below) (ground arith)

  -- What a count says of the range.
  pub count_slots-range :
      (from to : Time) (limit : ℕ) (n : ℤ)
      → count_slots c from to (pos limit) ≡ ok n
      → IsBoundary c from
        × IsBoundary c to
        × (n ≡ pos ((boundaries c).index to - (boundaries c).index from))
        × ((boundaries c).index from ≤ (boundaries c).index to)
        × ((boundaries c).index to - (boundaries c).index from ≤ limit)
  unfolding count_slots
  count_slots-range from to limit n h =
      let (u, first, h1) = >>=-eq-ok (validate_boundary c from) _ h in
      let (v, last, h2) = >>=-eq-ok (validate_boundary c to) _ h1 in
      let f = validate_boundary-IsBoundary c valid from first in
      let t = validate_boundary-IsBoundary c valid to last in
      let (count, ordered, fits) =
        counted from to limit n ((boundaries c).index to - (boundaries c).index from)
          (sym (count_slots_within c valid from to limit f t) ∙ h) in
      let low = first_boundary c valid in
      (f, t, count, index_mono (boundaries c) from to (omega arith) ordered, fits)
    where
      counted :
          (from to : Time) (limit : ℕ) (n : ℤ) (count : ℕ)
          → (if ltb to from
              then err invalid_slot_range
              else if ltb limit count
              then err slot_limit
              else ok (pos count))
            ≡ ok n
          → (n ≡ pos count) × (from ≤ to) × (count ≤ limit)
      counted from to limit n count h = ground arith

  -- If `CountSlots` of a valid calendar succeeds with a count, then `Shift` by that count leads
  -- from the start of the range to its end, and the count is within the limit.
  pub count_slots-shift :
      (from to : Time) (limit n : ℕ)
      → count_slots c from to (pos limit) ≡ ok (pos n)
      → (shift c from (pos n) ≡ ok to) × (n ≤ limit)
  count_slots-shift from to limit n h =
      let i = (boundaries c).index from in
      let j = (boundaries c).index to in
      let (f, t, count, ordered, fits) = count_slots-range from to limit (pos n) h in
      let size : n ≡ j - i = cc in
      let up : i + n ≡ j = omega arith in
      (shift_up c valid from n f ∙ rw (up, t.1, overflow_above) (ground arith), omega arith)

  -- If `Shift` of a valid calendar by d slots up succeeds and d is within the limit, then
  -- `CountSlots` from the argument to the result is d.
  pub shift-count_slots :
      (b t : Time) (limit d : ℕ)
      → shift c b (pos d) ≡ ok t
      → d ≤ limit
      → count_slots c b t (pos limit) ≡ ok (pos d)
  shift-count_slots b t limit d h fits =
      let i = (boundaries c).index b in
      let (lands, number, at_b, at_t) = shift_up-slot b t d h in
      let later = slot_mono (boundaries c) i (i + d) (omega arith) in
      let count : (boundaries c).index t - i ≡ d = omega arith in
      count_slots_within c valid b t limit at_b at_t ∙ rw count (ground arith)
