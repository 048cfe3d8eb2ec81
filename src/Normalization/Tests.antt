-- ===== src/Normalization/Tests.antt =====
-- Pages and rows of internal/infrastructure/exchange/normalization, with whole numbers for
-- decimals.
use market_data.Prelude.{
  ℕ, ◌+◌, ◌-◌, ◌*◌, ◌≤◌, ◌≡◌, refl, true, leb, ◌==◌, ◌&&◌, if◌then◌else◌, Option, none, some, List,
  [], ◌∷◌, length, All, arith,
}
use market_data.Prelude.Int.{ℤ, pos, negsuc, pos_part, neg_part, sub_ℕ, ltb_ℤ, ◌-ℤ◌}
use market_data.Prelude.Map.{get}
use market_data.Prelude.Text.{bytes, Text-discrete}
use market_data.Errors.{err, ok, invalid_upstream_data}
use market_data.Domain.Names.{binance, spot, m1}
use market_data.Domain.Market.{Text}
use market_data.Domain.Time.{second}
use market_data.Domain.Timeframe.{Calendar, new_calendar}
use market_data.Application.Context.{background}
use market_data.Application.Series.{Request, Stored}
use market_data.Application.Planner.Tests.{planner_run, page, instant}
use market_data.Storage.Klines.Read.{sort_by_time, insert_by_time}
use market_data.Storage.Klines.Range.{Ascending}
use market_data.Normalization.{
  Decoding, Row, raw, text, limit, signed_decimal, decimal, step, duration, delisting,
}
use market_data.Normalization.Current.{quote, count}
use market_data.Normalization.Candles.{
  candle_integer, trades, prices, candle, candles, klines, kline_request,
}
use market_data.Normalization.Pages.{InPage, klines-InPage}
use market_data.Normalization.Printed.{Negation, decimal-decimal_text}
use market_data.Transport.Rows.{decimal_text}

abbrev number : ℕ → Text → Option ℤ
number n [] = some (pos n)
number n (b ∷ rest) = if leb 48 b && leb b 57 then number (n * 10 + (b - 48)) rest else none

abbrev unquoted : Text → Option Text
unquoted [] = none
unquoted (b ∷ rest) = if b == 34 then inner rest else none
  where
    inner : Text → Option Text
    inner [] = none
    inner (c ∷ []) = some []
    inner (c ∷ (d ∷ more)) = elim (inner (d ∷ more)) [ none ↦ none | some t ↦ some (c ∷ t) ]

abbrev lib : Decoding ℤ
lib = record {
  json_text = unquoted;
  json_number = λ t. some t;
  json_integer = number 0;
  parse_int = number 0;
  parse_decimal = number 0;
  is_negative = λ v. ltb_ℤ v (pos 0);
  is_positive = λ v. ltb_ℤ (pos 0) v;
  is_zero = λ v. pos_part v + neg_part v == 0;
  digits = λ v. if leb 10 (pos_part v + neg_part v) then 2 else 1;
  exponent = λ v. pos 0;
  negate = λ v. sub_ℕ (neg_part v) (pos_part v);
  subtract = λ v w. v -ℤ w;
  greater = λ v w. ltb_ℤ w v;
}

-- The tuple of minute n of the Unix time, with the prices 5, 9, 3 and 7, or with a low of 6.
abbrev tuple : Text → Text → Text → List Text
tuple opens closes low =
    opens
    ∷ bytes "\"5\""
    ∷ bytes "\"9\""
    ∷ low
    ∷ bytes "\"7\""
    ∷ bytes "\"1\""
    ∷ closes
    ∷ bytes "\"2\""
    ∷ bytes "4"
    ∷ []

abbrev first : List Text
first = tuple (bytes "59880000") (bytes "59939999") (bytes "\"3\"")

abbrev later : List Text
later = tuple (bytes "59940000") (bytes "59999999") (bytes "\"3\"")

-- The request of the planner for minutes 998 and 999.
abbrev request : Request
request = page 998 2

asks_two : kline_request request binance ≡ ok tt
unfolding planner_run kline_request
asks_two = refl

abbrev row : ℕ → Stored ℤ
row n = record {
  candle = record {
    exchange = binance;
    market = spot;
    symbol = 66 ∷ [];
    interval = m1;
    open_time = instant n 0;
    close_time = instant n 60;
    open_price = pos 5;
    high = pos 9;
    low = pos 3;
    close_price = pos 7;
    volume = pos 1;
    turnover = pos 2;
    trades_count = some 4;
    fetched_at = instant 1000 2;
  };
  request_started_at = instant 1000 1;
}

unfoldable page_run : ℕ
unfolding planner_run klines candles candle candle_integer trades prices decimal text raw limit
    sort_by_time insert_by_time Text-discrete
page_run = 0

-- The exchange's order does not matter.
both_rows :
    klines lib background request (later ∷ first ∷ []) (instant 1000 1) (instant 1000 2)
    ≡ ok (row 998 ∷ row 999 ∷ [])
unfolding page_run
both_rows = refl

twice_refused :
    klines lib background request (first ∷ first ∷ []) (instant 1000 1) (instant 1000 2)
    ≡ err invalid_upstream_data
unfolding page_run
twice_refused = refl

low_above_open :
    klines lib background request
      (tuple (bytes "59880000") (bytes "59939999") (bytes "\"6\"") ∷ [])
      (instant 1000 1)
      (instant 1000 2)
    ≡ err invalid_upstream_data
unfolding page_run
low_above_open = refl

klines-InPage_example :
    (calendar : Calendar) × (new_calendar binance spot m1 ≡ ok calendar)
    × All (InPage lib request calendar (instant 1000 1) (instant 1000 2)) (row 998 ∷ row 999 ∷ [])
    × Ascending (row 998 ∷ row 999 ∷ [])
    × (length (row 998 ∷ row 999 ∷ []) ≡ length (later ∷ first ∷ []))
    × (length (later ∷ first ∷ []) ≤ request.limit)
klines-InPage_example =
    klines-InPage lib background request (later ∷ first ∷ []) (instant 1000 1) (instant 1000 2)
      (row 998 ∷ row 999 ∷ []) both_rows

abbrev quotes : Row
quotes =
    (bytes "bid", bytes "\"12\"")
    ∷ (bytes "size", bytes "\"3\"")
    ∷ (bytes "change", bytes "\"-12\"")
    ∷ (bytes "count", bytes "7")
    ∷ []

both_sides : quote lib quotes (bytes "bid") (bytes "size") ≡ ok (some (pos 12), some (pos 3))
unfolding quote decimal text raw limit Text-discrete get
both_sides = refl

one_side : quote lib quotes (bytes "bid") (bytes "other") ≡ err invalid_upstream_data
unfolding quote decimal text raw limit Text-discrete get
one_side = refl

seven_trades : count lib quotes ≡ ok (some 7)
unfolding count text raw Text-discrete get
seven_trades = refl

change_down : decimal lib quotes (bytes "change") true true ≡ ok (some (negsuc 11))
unfolding decimal text raw limit signed_decimal Text-discrete get
change_down = refl

no_step : step lib (bytes "0") ≡ err invalid_upstream_data
unfolding step limit
no_step = refl

eight_hours : duration lib (bytes "8") (3600 * second) ≡ ok (some (28800 * second))
unfolding duration
eight_hours = refl

never_delisted : delisting lib (bytes "0") ≡ ok none
unfolding delisting
never_delisted = refl

lib-Negation : Negation lib
lib-Negation = record { same_digits = λ v. ground arith; same_exponent = λ v. refl }

decimal-decimal_text_example : decimal_text lib (λ v. bytes "-12") (negsuc 11) ≡ ok (bytes "-12")
decimal-decimal_text_example =
    decimal-decimal_text lib lib-Negation (λ v. bytes "-12") quotes (bytes "change") true true
      (negsuc 11) change_down
