-- ===== src/Domain/Timeframe/ShiftSeconds.antt =====
-- `shift` of calendars with slots of a fixed number of seconds.
use native.Mathlib.Nat.{le-div_iff_mul-le, div-lt_iff_lt-mul, zero-div}
use market_data.Prelude.{
  ℕ, ◌+◌, ◌-◌, ◌*◌, ◌/◌, ◌≤◌, ◌<◌, ◌≡◌, arith, if◌then◌else◌, ltb, leb, ◌||◌, false, not, ◌↔◌,
}
use market_data.Prelude.Int.{ℤ, pos, pos_part, neg_part, int_laws, sub_ℕ, ◌+ℤ◌, ◌-ℤ◌, ◌*ℤ◌, ltb_ℤ}
use market_data.Errors.{ok, err, guard, ◌>>◌, time_overflow}
use market_data.Domain.Time.{Time, unix, of_unix, zero_time, second, unix_epoch, year_one}
use market_data.Domain.Timeframe.Floor.{end_time}
use market_data.Domain.Timeframe.Boundaries.{InYears}
use market_data.Domain.Timeframe.{quot, shift_seconds, min_seconds, max_seconds}

-- The tests of `shift_seconds` and its result, in seconds from the origin.
min-unix : (t : Time) → min_seconds -ℤ unix t ≡ sub_ℕ year_one (t / second)
unfolding unix ◌-ℤ◌
min-unix t = ground arith

quot-min :
    (t : Time) (n : ℕ)
    → zero_time ≤ t
    → quot (min_seconds -ℤ unix t) n ≡ sub_ℕ 0 ((t / second - year_one) / n)
quot-min t n h = rw (min-unix t) (ground (arith, zero-div n))

quot-max :
    (t : Time) (n : ℕ)
    → t < end_time
    → quot (max_seconds -ℤ unix t) n ≡ pos ((unix_epoch + 253402300799 - t / second) / n)
unfolding unix ◌-ℤ◌
quot-max t n h = ground arith

pub of_unix_parts :
    (z : ℤ) (x : ℕ) → pos_part z + unix_epoch ≡ x + neg_part z → of_unix z ≡ x * second
unfolding of_unix
of_unix_parts z x h = omega arith

pub unix_parts : (t : Time) → pos_part (unix t) + unix_epoch ≡ t / second + neg_part (unix t)
unfolding unix
unix_parts t = ground arith

scaled_up : (d n : ℕ) → pos d *ℤ pos n ≡ pos (d * n)
unfolding ◌*ℤ◌
scaled_up d n = ground arith

scaled_down : (d n : ℕ) → (pos 0 -ℤ pos d) *ℤ pos n ≡ pos 0 -ℤ pos (d * n)
unfolding ◌*ℤ◌ ◌-ℤ◌
scaled_down d n = ground arith

of_unix-add :
    (t : Time) (d n : ℕ) → of_unix (unix t +ℤ pos d *ℤ pos n) ≡ (t / second + d * n) * second
of_unix-add t d n = rw (scaled_up d n) (of_unix_parts _ _ (omega (int_laws, unix_parts t)))

of_unix-sub :
    (t : Time) (d n : ℕ)
    → d * n ≤ t / second
    → of_unix (unix t +ℤ (pos 0 -ℤ pos d) *ℤ pos n) ≡ (t / second - d * n) * second
of_unix-sub t d n h = rw (scaled_down d n) (of_unix_parts _ _ (omega (int_laws, unix_parts t)))

-- `shift_seconds` moves by d slots up or down and refuses exactly to leave the years 1 to 9999.
pub shift_seconds-up :
    (n : ℕ) (t : Time) (d : ℕ)
    → 0 < n
    → InYears t
    → shift_seconds n t (pos d) ≡ (
        let r = (t / second + d * n) * second in if leb end_time r then err time_overflow else ok r)
unfolding shift_seconds
shift_seconds-up n t d h y =
    rw (quot-min t n y.0, quot-max t n y.1, of_unix-add t d n)
      (ground
        (arith, le-div_iff_mul-le {k = n} {x = d} {y = unix_epoch + 253402300799 - t / second} h))

negated_lt : (d q : ℕ) → ltb_ℤ (pos 0 -ℤ pos d) (sub_ℕ 0 q) ≡ ltb q d
unfolding ◌-ℤ◌
negated_lt d q = ground arith

lt_negated : (d q : ℕ) → ltb_ℤ (pos q) (pos 0 -ℤ pos d) ≡ false
unfolding ◌-ℤ◌
lt_negated d q = ground arith

down_tests :
    (n : ℕ) (t : Time) (d : ℕ)
    → ((t / second - year_one) / n < d) ↔ (t / second - year_one < d * n)
    → zero_time ≤ t
    → (do
      guard (not (ltb ((t / second - year_one) / n) d || false)) time_overflow
      ok (of_unix (unix t +ℤ (pos 0 -ℤ pos d) *ℤ pos n)))
      ≡ (if ltb (t / second) (year_one + d * n)
          then err time_overflow
          else ok ((t / second - d * n) * second))
down_tests n t d q z = ground (arith, of_unix-sub t d n)

pub shift_seconds-down :
    (n : ℕ) (t : Time) (d : ℕ)
    → 0 < n
    → InYears t
    → shift_seconds n t (pos 0 -ℤ pos d) ≡ (
        if ltb (t / second) (year_one + d * n)
        then err time_overflow
        else ok ((t / second - d * n) * second))
unfolding shift_seconds
shift_seconds-down n t d h y =
    let q = div-lt_iff_lt-mul {k = n} {x = t / second - year_one} {y = d} h in
    rw (quot-min t n y.0, quot-max t n y.1, negated_lt d _, lt_negated d _) (down_tests n t d q y.0)
