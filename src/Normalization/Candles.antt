-- ===== src/Normalization/Candles.antt =====
-- internal/infrastructure/exchange/normalization/kline.go: the check of a page request, and the
-- candles of a page.
use market_data.Prelude.{
  ℕ, suc, ◌+◌, Bool, true, false, not, ◌&&◌, ◌||◌, leb, ltb, ◌==◌, if◌then◌else◌, Option, none,
  some, List, [], ◌∷◌, length, get_elem?, ite,
}
use market_data.Prelude.Int.{ℤ, pos, negsuc, ltb_ℤ}
use market_data.Prelude.Text.{bytes, same_text}
use market_data.Errors.{
  Result, err, ok, ◌>>=◌, ◌>>◌, guard, invalid_filter, invalid_parameter, invalid_interval,
  invalid_range, invalid_upstream_data, Error,
}
use market_data.Domain.Names.{Exchange, bybit, Exchange-discrete, valid_market}
use market_data.Domain.Market.{Text, Kline}
use market_data.Domain.Time.{Time, before, after, is_zero, zero_time, unix}
use market_data.Domain.Timeframe.{Calendar, new_calendar, next, count_slots}
use market_data.Application.Context.{Context, check}
use market_data.Application.Series.{Request, Stored}
use market_data.Application.Snapshot.{select_snapshot}
use market_data.Storage.Klines.Read.{sort_by_time}
use market_data.Normalization.{
  Decoding, invalid, valid_if, is_empty, raw_of, unix_milli, required_decimal, decimal, max_int64,
}

-- An error that is replaced.
abbrev pub replaced {ℓ} : {A : Type ℓ} → Error → Result A → Result A
replaced e (err _) = err e
replaced e (ok x) = ok x

abbrev same_count : ℕ → ℤ → Bool
same_count n (pos m) = n == m
same_count n (negsuc m) = false

unfoldable pub kline_request : Request → Exchange → Result (Unit {0})
unfolding Exchange-discrete valid_market select_snapshot new_calendar count_slots
kline_request request exchange = do
  guard
      (ite (Exchange-discrete request.query.exchange exchange) true false
        && valid_market request.query.market
        && not (is_empty request.query.symbol))
      invalid_filter
  selected ← select_snapshot (request.query.scope ∷ []) (record {
    exchange = some request.query.exchange;
    market = some request.query.market;
    symbol = request.query.symbol;
  })
  guard (not (leb request.limit 0)) invalid_parameter
  calendar ←
      replaced invalid_interval (new_calendar exchange request.query.market request.query.interval)
  guard (not (ltb_ℤ (unix request.query.from) (pos 0) || ltb_ℤ (unix request.query.to) (pos 0)))
      invalid_range
  count ←
      replaced invalid_range
        (count_slots calendar request.query.from request.query.to (pos request.limit))
  guard (same_count request.limit count) invalid_range

abbrev pub is_bybit : Exchange → Bool
is_bybit bybit = true
is_bybit _ = false

abbrev all_digits : Text → Bool
all_digits [] = true
all_digits (b ∷ rest) = leb 48 b && leb b 57 && all_digits rest

abbrev nonnegative : ℤ → Result ℕ
nonnegative (negsuc n) = invalid
nonnegative (pos n) = ok n

abbrev pub field : List Text → ℕ → Text
field source i = raw_of (get_elem? source i)

-- The six decimals of a candle.
pub record Prices (D : Type 0) : Type 0 where
  pub open_price : D
  pub high : D
  pub low : D
  pub close_price : D
  pub volume : D
  pub turnover : D

module _ {D : Type 0} (lib : Decoding D) where
  abbrev quoted_integer : Text → Result ℕ
  quoted_integer digits = do
    guard (not (is_empty digits) && all_digits digits) invalid_upstream_data
    value ← valid_if (lib.parse_int digits)
    nonnegative value

  unfoldable pub candle_integer : Text → Bool → Result ℕ
  candle_integer raw true = valid_if (lib.json_text raw) >>= quoted_integer
  candle_integer raw false = do
    guard (not (is_empty raw || same_text raw (bytes "null"))) invalid_upstream_data
    value ← valid_if (lib.json_integer raw)
    nonnegative value

  -- The close time and the number of trades, which Bybit does not send.
  unfoldable pub trades : List Text → Time → Bool → Result (Option ℕ)
  unfolding candle_integer
  trades source close true = ok none
  trades source close false = do
    last ← candle_integer (field source 6) false
    guard (not (last == max_int64 lib) && unix_milli (last + 1) == close) invalid_upstream_data
    count ← candle_integer (field source 8) false
    ok (some count)

  abbrev price : Text → Result D
  price raw = required_decimal lib ((bytes "candle decimal", raw) ∷ []) (bytes "candle decimal")

  unfoldable pub prices : List Text → ℕ → Result (Prices D)
  unfolding decimal
  prices source turnover_field = do
    open_price ← price (field source 1)
    high ← price (field source 2)
    low ← price (field source 3)
    close_price ← price (field source 4)
    volume ← price (field source 5)
    turnover ← price (field source turnover_field)
    ok (record {
      open_price = open_price;
      high = high;
      low = low;
      close_price = close_price;
      volume = volume;
      turnover = turnover;
    })

  -- No price is below the low or above the high.
  abbrev pub bounded : Prices D → Bool
  bounded p = not (
      lib.greater p.low p.open_price
      || lib.greater p.low p.close_price
      || lib.greater p.open_price p.high
      || lib.greater p.close_price p.high)

  abbrev pub candle_of : Request → Time → Time → Option ℕ → Prices D → Kline D
  candle_of request opens close count p = record {
    exchange = request.query.exchange;
    market = request.query.market;
    symbol = request.query.symbol;
    interval = request.query.interval;
    open_time = opens;
    close_time = close;
    open_price = p.open_price;
    high = p.high;
    low = p.low;
    close_price = p.close_price;
    volume = p.volume;
    turnover = p.turnover;
    trades_count = count;
    fetched_at = zero_time;
  }

  unfoldable pub candle : Request → Calendar → List Text → Result (Kline D)
  unfolding candle_integer next trades prices
  candle request calendar source = do
    let by_bybit = is_bybit request.query.exchange
    guard (leb (if by_bybit then 7 else 9) (length source)) invalid_upstream_data
    opens ← candle_integer (field source 0) by_bybit
    guard
        (not (
          before (unix_milli opens) request.query.from
          || not (before (unix_milli opens) request.query.to)))
        invalid_upstream_data
    close ← replaced invalid_upstream_data (next calendar (unix_milli opens))
    count ← trades source close by_bybit
    p ← prices source (if by_bybit then 6 else 7)
    guard (bounded p) invalid_upstream_data
    ok (candle_of request (unix_milli opens) close count p)

  abbrev pub stored_row : Time → Time → Kline D → Stored D
  stored_row started fetched c = record {
    candle = record c { fetched_at = fetched };
    request_started_at = started;
  }

  -- The loop over the tuples, from the n-th check of the context on.
  unfoldable pub candles :
      Context → ℕ → Request → Calendar → Time → Time → List (List Text) → Result (List (Stored D))
  unfolding candle
  candles ctx n request calendar started fetched [] = ok []
  candles ctx n request calendar started fetched (source ∷ sources) = do
    check ctx n
    c ← candle request calendar source
    rest ← candles ctx (suc n) request calendar started fetched sources
    ok (stored_row started fetched c ∷ rest)

  -- The loop over neighbours.
  abbrev pub no_duplicates : List (Stored D) → Bool
  no_duplicates [] = true
  no_duplicates (x ∷ []) = true
  no_duplicates (x ∷ (y ∷ rows)) =
      not (x.candle.open_time == y.candle.open_time) && no_duplicates (y ∷ rows)

  unfoldable pub klines :
      Context → Request → List (List Text) → Time → Time → Result (List (Stored D))
  unfolding new_calendar candles sort_by_time
  klines ctx request sources started fetched = do
    check ctx 0
    guard
        (not (
          ltb request.limit (length sources)
          || is_zero started
          || is_zero fetched
          || after started fetched))
        invalid_upstream_data
    calendar ←
        replaced invalid_upstream_data
          (new_calendar request.query.exchange request.query.market request.query.interval)
    rows ← candles ctx 1 request calendar started fetched sources
    guard (no_duplicates (sort_by_time rows)) invalid_upstream_data
    ok (sort_by_time rows)
