-- ===== src/Domain/Time.antt =====
-- Package time of Go, as far as internal/domain uses it. A `time.Time` is the number of nanoseconds
-- since Go's own absolute zero year -292277022399 (January 1, UTC), so that every comparison is one
-- of numbers; locations and monotonic readings are not kept, and `UTC` changes nothing.
pub mod Months
use market_data.Prelude.{
  ℕ, zero, suc, ◌+◌, ◌-◌, ◌*◌, ◌/◌, ◌%◌, ◌≤◌, ◌<◌, min, Bool, ltb, leb, ◌==◌, if◌then◌else◌, arith,
  ◌≡◌, refl,
}
use market_data.Prelude.Int.{ℤ, pos, negsuc, pos_part, neg_part, sub_ℕ}

abbrev pub Time : Type 0
Time = ℕ

abbrev pub second : ℕ
second = 1_000_000_000

abbrev pub day : ℕ
day = 86400

-- Seconds from the origin to January 1, year 1, and to the Unix epoch.
abbrev pub year_one : ℕ
year_one = 9223371966579724800

abbrev pub unix_epoch : ℕ
unix_epoch = 9223372028715321600

-- `time.Time{}`: January 1, year 1.
abbrev pub zero_time : Time
zero_time = year_one * second

abbrev pub before : Time → Time → Bool
before a b = ltb a b

abbrev pub after : Time → Time → Bool
after a b = ltb b a

abbrev pub is_zero : Time → Bool
is_zero t = t == zero_time

-- `t.Unix()` and `time.Unix(s, 0)`.
unfoldable pub unix : Time → ℤ
unix t = sub_ℕ (t / second) unix_epoch

unfoldable pub of_unix : ℤ → Time
of_unix s = (unix_epoch + pos_part s - neg_part s) * second

-- Years are counted from the absolute zero year, whose calendar is that of year 1.
abbrev pub absolute_year_one : ℕ
absolute_year_one = 292277022400

-- Days before year y: 365 each, and a leap day for every fourth but not for three hundredths of
-- four.
unfoldable pub year_start : ℕ → ℕ
year_start y = 365 * y + y / 4 - y / 100 + y / 400

unfoldable pub year_of_day : ℕ → ℕ
year_of_day d =
    let d400 = d % 146097 in
    let n100 = min 3 (d400 / 36524) in
    let d100 = d400 - n100 * 36524 in
    let d4 = d100 % 1461 in 400 * (d / 146097) + 100 * n100 + 4 * (d100 / 1461) + min 3 (d4 / 365)

-- 1 in a leap year, else 0.
unfoldable pub leap : ℕ → ℕ
unfolding year_start
leap y = year_start (suc y) - year_start y - 365

-- Days of the year before month m (0 to 12), with l leap days in February.
unfoldable pub month_start : ℕ → ℕ → ℕ
month_start l m =
    if m == 0
    then 0
    else if m == 1
    then 31
    else if m == 2
    then 59 + l
    else if m == 3
    then 90 + l
    else if m == 4
    then 120 + l
    else if m == 5
    then 151 + l
    else if m == 6
    then 181 + l
    else if m == 7
    then 212 + l
    else if m == 8
    then 243 + l
    else if m == 9
    then 273 + l
    else if m == 10
    then 304 + l
    else if m == 11
    then 334 + l
    else 365 + l

-- The month that holds day n of the year.
unfoldable pub month_of_day : ℕ → ℕ → ℕ
month_of_day l n =
    if ltb n 31
    then 0
    else if ltb n (59 + l)
    then 1
    else if ltb n (90 + l)
    then 2
    else if ltb n (120 + l)
    then 3
    else if ltb n (151 + l)
    then 4
    else if ltb n (181 + l)
    then 5
    else if ltb n (212 + l)
    then 6
    else if ltb n (243 + l)
    then 7
    else if ltb n (273 + l)
    then 8
    else if ltb n (304 + l)
    then 9
    else if ltb n (334 + l)
    then 10
    else 11

-- `t.Year()` and `t.Month() - 1`, the year counted from the absolute zero year.
unfoldable pub year : Time → ℕ
year t = year_of_day (t / second / day)

unfoldable pub month : Time → ℕ
unfolding year
month t = let d = t / second / day in month_of_day (leap (year t)) (d - year_start (year t))

-- `time.Date(y, m + 1, 1, 0, 0, 0, 0, time.UTC)`.
unfoldable pub date : ℕ → ℕ → Time
date y m = (year_start y + month_start (leap y) m) * day * second

-- January 1, 1970 is day 0 of Unix time; July 20, 1969 22:13:20 is before it.
epoch_date : unix (date (absolute_year_one + 1969) 0) ≡ pos 0
unfolding unix date year_start month_start leap
epoch_date = refl

sample_month : month (of_unix (pos 1_700_000_000)) ≡ 10
unfolding month of_unix year_of_day leap month_of_day year_start
sample_month = refl

sample_year : year (of_unix (negsuc 999_999_999)) ≡ absolute_year_one + 1937
unfolding year of_unix year_of_day
sample_year = refl
