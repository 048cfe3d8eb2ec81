-- ===== src/Domain/Timeframe/Floor.antt =====
-- `Floor` against the grid of slot boundaries.
use market_data.Prelude.{ℕ, ◌+◌, ◌-◌, ◌*◌, ◌/◌, ◌≤◌, ◌<◌, ◌≡◌, arith, ltb, leb}
use market_data.Domain.Time.{
  Time, year, zero_time, second, year_start, unix_epoch, unix, of_unix, day,
}
use market_data.Domain.Time.Months.{year_of_day_bounds}
use market_data.Prelude.Int.{pos, sub_ℕ, ◌-ℤ◌}
use market_data.Domain.Names.{seconds}
use market_data.Domain.Timeframe.Remainder.{past, past-lt, floor_remainder-sub}
use market_data.Domain.Timeframe.{Calendar, floor_seconds, before_year_one, after_year_9999}

-- The first nanosecond of year 10000.
abbrev pub end_time : Time
end_time = (unix_epoch + 253402300800) * second

pub before_year_one_lem : (t : Time) → before_year_one t ≡ ltb t zero_time
unfolding year year_start
before_year_one_lem t = ground (arith, year_of_day_bounds (t / second / day))

pub after_year_9999_lem : (t : Time) → after_year_9999 t ≡ leb end_time t
unfolding year year_start
after_year_9999_lem t = ground (arith, year_of_day_bounds (t / second / day))

unix-sub : (t : Time) (a : ℕ) → unix t -ℤ pos a ≡ sub_ℕ (t / second) (unix_epoch + a)
unfolding unix ◌-ℤ◌
unix-sub t a = ground arith

of_unix-sub :
    (t : Time) (r : ℕ) → r ≤ t / second → of_unix (unix t -ℤ pos r) ≡ (t / second - r) * second
unfolding of_unix
of_unix-sub t r h = rw (unix-sub t r) (ground arith)

pub floor_seconds_lem :
    (c : Calendar) (t : Time)
    → 0 < seconds c.interval
    → seconds c.interval ≤ t / second
    → floor_seconds c t
      ≡ (t / second - past (seconds c.interval) (unix_epoch + c.anchor) (t / second)) * second
unfolding floor_seconds
floor_seconds_lem c t h le =
    let n = seconds c.interval in
    let a = unix_epoch + c.anchor in
    rw (unix-sub t c.anchor, floor_remainder-sub n a (t / second) h)
      (of_unix-sub t _ (omega (arith, past-lt n a (t / second) h)))
