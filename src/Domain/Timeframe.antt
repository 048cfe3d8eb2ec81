-- ===== src/Domain/Timeframe.antt =====
-- internal/domain/timeframe.go: the calendar of candle slots. An int64 is a ℤ: `Grid` shows that no
-- value leaves its range, since every time is first held to the years 1 to 9999.
pub mod Remainder
pub mod Floor
pub mod Boundaries
pub mod Flooring
pub mod ShiftSeconds
pub mod ShiftMonths
pub mod Shift
pub mod Count
pub mod RoundTrip
mod Tests
use market_data.Prelude.{
  ℕ, ◌+◌, ◌-◌, ◌*◌, ◌/◌, ◌%◌, Bool, true, false, not, ◌||◌, ltb, leb, ◌==◌, if◌then◌else◌,
}
use market_data.Prelude.Int.{ℤ, pos, negsuc, pos_part, sub_ℕ, ◌+ℤ◌, ◌-ℤ◌, ◌*ℤ◌, ltb_ℤ}
use market_data.Errors.{
  Error, Result, ok, err, ◌>>=◌, ◌>>◌, guard, invalid_timeframe, unknown_calendar, invalid_boundary,
  time_overflow, invalid_slot_range, slot_limit,
}
use market_data.Domain.Names.{
  Exchange, binance, Market, Timeframe, d3, w1, other, valid_exchange, valid_market, seconds,
  is_month, valid_timeframe,
}
use market_data.Domain.Time.{Time, after, unix, of_unix, year, month, date, absolute_year_one}

unfoldable pub parse_timeframe : Timeframe → Result Timeframe
unfolding valid_timeframe
parse_timeframe value = do guard (valid_timeframe value) invalid_timeframe; ok value

-- `interval` is `other _` in the zero value.
pub record Calendar : Type 0 where
  pub interval : Timeframe
  pub anchor : ℕ

abbrev pub anchored : Exchange → Timeframe → Result Calendar
anchored binance d3 = ok (record { interval = d3; anchor = 86400 })
anchored _ d3 = err unknown_calendar
anchored _ w1 = ok (record { interval = w1; anchor = 4 * 86400 })
anchored _ i = ok (record { interval = i; anchor = 0 })

unfoldable pub new_calendar : Exchange → Market → Timeframe → Result Calendar
unfolding valid_timeframe valid_exchange valid_market
new_calendar exchange market interval = do
  guard (valid_timeframe interval) invalid_timeframe
  guard (not (not (valid_exchange exchange) || not (valid_market market))) unknown_calendar
  anchored exchange interval

-- Go's `%` and `/` of signed integers by a positive one, which round to zero.
abbrev pub rem : ℤ → ℕ → ℤ
rem (pos a) n = pos (a % n)
rem (negsuc a) n = sub_ℕ 0 ((a + 1) % n)

abbrev pub quot : ℤ → ℕ → ℤ
quot (pos a) n = pos (a / n)
quot (negsuc a) n = sub_ℕ 0 ((a + 1) / n)

abbrev neg : ℤ → ℤ
neg a = pos 0 -ℤ a

-- `t.Year() < 1` and `t.Year() > 9999`.
abbrev pub before_year_one : Time → Bool
before_year_one t = ltb (year t) absolute_year_one

abbrev pub after_year_9999 : Time → Bool
after_year_9999 t = ltb (absolute_year_one + 9998) (year t)

-- `t.Unix()` less the remainder that Go's `%` gives, made positive.
unfoldable pub floor_remainder : ℕ → ℤ → ℤ
unfolding ◌+ℤ◌
floor_remainder n offset =
    let remainder = rem offset n in
    if ltb_ℤ remainder (pos 0) then remainder +ℤ pos n else remainder

unfoldable pub floor_seconds : Calendar → Time → Time
floor_seconds c t =
    of_unix (unix t -ℤ floor_remainder (seconds c.interval) (unix t -ℤ pos c.anchor))

unfoldable pub floor : Calendar → Time → Result Time
unfolding valid_timeframe floor_seconds floor_remainder ◌-ℤ◌ unix of_unix year month date
floor c t = do
  guard (valid_timeframe c.interval) invalid_timeframe
  guard (not (before_year_one t || after_year_9999 t)) time_overflow
  if is_month c.interval then ok (date (year t) (month t)) else (do
    guard (not (before_year_one (floor_seconds c t))) time_overflow
    ok (floor_seconds c t))

unfoldable pub validate_boundary : Calendar → Time → Result (Unit {0})
validate_boundary c t = do boundary ← floor c t; guard (boundary == t) invalid_boundary

-- Seconds of January 1, year 1, and of December 31, year 9999, 23:59:59.
abbrev pub min_seconds : ℤ
min_seconds = negsuc 62135596799

abbrev pub max_seconds : ℤ
max_seconds = pos 253402300799

unfoldable pub shift_months : Time → ℤ → Result Time
shift_months boundary slots = do
  let months = (year boundary - absolute_year_one) * 12 + month boundary
  guard (not (ltb_ℤ slots (neg (pos months)) || ltb_ℤ (pos (9999 * 12 - 1) -ℤ pos months) slots))
      time_overflow
  let total = pos_part (pos months +ℤ slots)
  ok (date (total / 12 + absolute_year_one) (total % 12))

unfoldable pub shift_seconds : ℕ → Time → ℤ → Result Time
shift_seconds n boundary slots = do
  let start = unix boundary
  guard
      (not (
        ltb_ℤ slots (quot (min_seconds -ℤ start) n) || ltb_ℤ (quot (max_seconds -ℤ start) n) slots))
      time_overflow
  ok (of_unix (start +ℤ slots *ℤ pos n))

unfoldable pub shift : Calendar → Time → ℤ → Result Time
shift c boundary slots = do
  validate_boundary c boundary
  if is_month c.interval
      then shift_months boundary slots
      else shift_seconds (seconds c.interval) boundary slots

unfoldable pub next : Calendar → Time → Result Time
next c boundary = shift c boundary (pos 1)

abbrev pub difference : Calendar → Time → Time → ℤ
difference c from to =
    if is_month c.interval
    then (pos (year to) -ℤ pos (year from)) *ℤ pos 12 +ℤ (pos (month to) -ℤ pos (month from))
    else quot (unix to -ℤ unix from) (seconds c.interval)

unfoldable pub count_slots : Calendar → Time → Time → ℤ → Result ℤ
count_slots c from to limit = do
  validate_boundary c from
  validate_boundary c to
  guard (not (ltb_ℤ limit (pos 0) || after from to)) invalid_slot_range
  guard (not (ltb_ℤ limit (difference c from to))) slot_limit
  ok (difference c from to)

unfoldable pub history_cutoff : Calendar → Time → ℤ → Result Time
history_cutoff c now slots = do
  guard (ltb_ℤ (pos 0) slots) invalid_slot_range
  current ← floor c now
  shift c current (neg slots)
