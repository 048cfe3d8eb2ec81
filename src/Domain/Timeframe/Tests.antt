-- ===== src/Domain/Timeframe/Tests.antt =====
-- Calendars of internal/domain/timeframe.go at concrete times.
use market_data.Prelude.{
  ℕ, suc, ◌+◌, ◌*◌, ◌≡◌, refl, true, arith, ltb, leb, if◌then◌else◌, ◌||◌, ◌-◌, ◌≤◌, ◌<◌,
}
use market_data.Prelude.Int.{pos, ltb_ℤ, ◌-ℤ◌, ◌*ℤ◌}
use market_data.Errors.{ok, err, time_overflow, invalid_slot_range, slot_limit}
use market_data.Domain.Names.{m1, d3, month1, valid_timeframe}
use market_data.Domain.Time.{
  Time, second, unix_epoch, zero_time, year_of_day, year_start, leap, month_of_day, month_start,
}
use market_data.Domain.Time.Months.{month_slot, month_index}
use market_data.Domain.Timeframe.{
  Calendar, floor, floor_seconds, floor_remainder, validate_boundary, shift, shift_months,
  shift_seconds, next, count_slots, history_cutoff,
}
use market_data.Domain.Timeframe.Floor.{end_time}
use market_data.Domain.Timeframe.Boundaries.{boundaries, seconds_grid, slot_at, slot_at_bounds}
use market_data.Domain.Timeframe.Flooring.{floor-slot_at}
use market_data.Domain.Timeframe.Shift.{IsBoundary, shift_up}
use market_data.Domain.Timeframe.ShiftMonths.{overflow_above, overflow_below}
use market_data.Domain.Timeframe.Count.{count_slots-index, history_cutoff-slot}
use market_data.Domain.Timeframe.RoundTrip.{next-IsBoundary, count_slots-shift, shift-count_slots}

abbrev minutes : Calendar
minutes = record { interval = m1; anchor = 0 }

abbrev three_days : Calendar
three_days = record { interval = d3; anchor = 86400 }

abbrev by_month : Calendar
by_month = record { interval = month1; anchor = 0 }

-- Second s of Unix time.
abbrev at_second : ℕ → Time
at_second s = (unix_epoch + s) * second

-- What a run of a calendar unfolds.
calendar_run : ℕ
unfolding valid_timeframe floor floor_seconds floor_remainder validate_boundary shift shift_months
    shift_seconds next count_slots history_cutoff ◌*ℤ◌ year_of_day year_start leap month_of_day
    month_start seconds_grid boundaries month_slot month_index
calendar_run = 0

m1_valid : valid_timeframe m1 ≡ true
unfolding calendar_run
m1_valid = refl

d3_valid : valid_timeframe d3 ≡ true
unfolding calendar_run
d3_valid = refl

month1_valid : valid_timeframe month1 ≡ true
unfolding calendar_run
month1_valid = refl

-- The boundaries of a week after the start of Unix time, for slots of three days.
floor-slot_at_example : floor three_days (at_second 604800) ≡ (
    if ltb (at_second 604800) zero_time || leb end_time (at_second 604800)
    then err time_overflow
    else if ltb (slot_at three_days (at_second 604800)) zero_time
    then err time_overflow
    else ok (slot_at three_days (at_second 604800)))
floor-slot_at_example = floor-slot_at three_days (at_second 604800) d3_valid

slot_at_bounds_example :
    (slot_at three_days (at_second 604800) ≤ at_second 604800)
    × (at_second 604800
        < (boundaries three_days).slot (suc ((boundaries three_days).index (at_second 604800))))
slot_at_bounds_example = slot_at_bounds three_days (at_second 604800) d3_valid (omega arith)

minute_two : IsBoundary minutes (at_second 120)
unfolding calendar_run
minute_two = ((omega arith, omega arith), refl)

minute_five : IsBoundary minutes (at_second 300)
unfolding calendar_run
minute_five = ((omega arith, omega arith), refl)

february : IsBoundary by_month (at_second 2678400)
unfolding calendar_run
february = ((omega arith, omega arith), refl)

shift_up_example :
    shift minutes (at_second 120) (pos 3)
    ≡ overflow_above ((boundaries minutes).slot ((boundaries minutes).index (at_second 120) + 3))
shift_up_example = shift_up minutes m1_valid (at_second 120) 3 minute_two

count_slots-index_example : count_slots minutes (at_second 120) (at_second 300) (pos 10) ≡ (
    let count =
      (boundaries minutes).index (at_second 300) - (boundaries minutes).index (at_second 120) in
    if ltb_ℤ (pos 10) (pos 0) || ltb (at_second 300) (at_second 120)
    then err invalid_slot_range
    else if ltb_ℤ (pos 10) (pos count)
    then err slot_limit
    else ok (pos count))
count_slots-index_example =
    count_slots-index minutes m1_valid (at_second 120) (at_second 300) (pos 10) minute_two
      minute_five

history_cutoff-slot_example :
    history_cutoff minutes (at_second 310) (pos 3)
    ≡ overflow_below ((boundaries minutes).slot ((boundaries minutes).index (at_second 310) - 3))
unfolding calendar_run
history_cutoff-slot_example =
    history_cutoff-slot minutes m1_valid (at_second 310) 3 (omega arith) (omega arith) (omega arith)
      (omega arith)

minute_after : next minutes (at_second 120) ≡ ok (at_second 180)
unfolding calendar_run
minute_after = refl

three_after : shift minutes (at_second 120) (pos 3) ≡ ok (at_second 300)
unfolding calendar_run
three_after = refl

three_between : count_slots minutes (at_second 120) (at_second 300) (pos 10) ≡ ok (pos 3)
unfolding calendar_run
three_between = refl

-- The month before January 1970 has 31 days.
december :
    shift by_month (at_second 2678400) (pos 0 -ℤ pos 2) ≡ ok ((unix_epoch - 2678400) * second)
unfolding calendar_run
december = refl

next-IsBoundary_example :
    IsBoundary minutes (at_second 180)
    × (at_second 120 < at_second 180)
    × (ltb (at_second 120) (at_second 300) ≡ leb (at_second 180) (at_second 300))
next-IsBoundary_example =
    next-IsBoundary minutes m1_valid (at_second 120) (at_second 180) (at_second 300) minute_after
      minute_five

count_slots-shift_example : (shift minutes (at_second 120) (pos 3) ≡ ok (at_second 300)) × (3 ≤ 10)
count_slots-shift_example =
    count_slots-shift minutes m1_valid (at_second 120) (at_second 300) 10 3 three_between

shift-count_slots_example :
    count_slots minutes (at_second 120) (at_second 300) (pos 10) ≡ ok (pos 3)
shift-count_slots_example =
    shift-count_slots minutes m1_valid (at_second 120) (at_second 300) 10 3 three_after
      (omega arith)
