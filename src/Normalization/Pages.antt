-- ===== src/Normalization/Pages.antt =====
-- A page of candles (internal/infrastructure/exchange/normalization/kline.go) as a whole.
use market_data.Prelude.{
  ℕ, suc, ◌≤◌, ◌<◌, ◌≡◌, refl, ◌∙◌, ap, subst, arith, true, false, not, ◌||◌, ltb, leb, List, [],
  ◌∷◌, length, All, if◌then◌else◌,
}
use market_data.Errors.{ok, >>=-eq-ok, guard-eq-ok, ok_value, invalid_upstream_data}
use market_data.Domain.Market.{Text, Kline}
use market_data.Domain.Time.{Time, before, after, is_zero}
use market_data.Domain.Timeframe.{Calendar, new_calendar, next}
use market_data.Application.Context.{Context, check}
use market_data.Application.Series.{Request, Stored}
use market_data.Application.Planner.Loading.{row_series}
use market_data.Storage.Klines.Read.{sort_by_time}
use market_data.Storage.Klines.Range.{Ascending}
use market_data.Normalization.{Decoding, unix_milli}
use market_data.Normalization.Candles.{
  is_bybit, field, replaced, Prices, candle_integer, trades, prices, bounded, candle_of, candle,
  stored_row, candles, no_duplicates, klines,
}
use market_data.Normalization.Ordered.{
  replaced-ok, sort-All, length-sort, sort-Rising, Rising-Ascending,
}

module _ {D : Type 0} (lib : Decoding D) (request : Request) (calendar : Calendar) where
  -- A candle of the request: of its series, in a slot of its range, with the prices in their
  -- bounds.
  pub record InPage (started fetched : Time) (x : Stored D) : Type 0 where
    pub own_series : row_series x ≡ request.query.series
    pub starts : request.query.from ≤ x.candle.open_time
    pub within : x.candle.open_time < request.query.to
    pub closes : next calendar x.candle.open_time ≡ ok x.candle.close_time
    pub open_price_bounds :
        (lib.greater x.candle.low x.candle.open_price ≡ false)
        × (lib.greater x.candle.open_price x.candle.high ≡ false)
    pub close_price_bounds :
        (lib.greater x.candle.low x.candle.close_price ≡ false)
        × (lib.greater x.candle.close_price x.candle.high ≡ false)
    pub evidence : (x.request_started_at ≡ started) × (x.candle.fetched_at ≡ fetched)

  of_bounded :
      (p : Prices D)
      → bounded lib p ≡ true
      → ((lib.greater p.low p.open_price ≡ false) × (lib.greater p.open_price p.high ≡ false))
        × ((lib.greater p.low p.close_price ≡ false) × (lib.greater p.close_price p.high ≡ false))
  of_bounded p h = ground arith

  candle-InPage :
      (started fetched : Time) (source : List Text) (c : Kline D)
      → candle lib request calendar source ≡ ok c
      → InPage started fetched (stored_row lib started fetched c)
  unfolding candle
  candle-InPage started fetched source c h =
      let by_bybit = is_bybit request.query.exchange in
      let (_, h1) =
        guard-eq-ok (leb (if by_bybit then 7 else 9) (length source)) invalid_upstream_data _ h in
      let (opens, read_open, h2) = >>=-eq-ok (candle_integer lib (field source 0) by_bybit) _ h1 in
      let t = unix_milli opens in
      let (inside, h3) =
        guard-eq-ok (not (before t request.query.from || not (before t request.query.to)))
          invalid_upstream_data _ h2 in
      let (close, moved, h4) = >>=-eq-ok (replaced invalid_upstream_data (next calendar t)) _ h3 in
      let (count, counted, h5) = >>=-eq-ok (trades lib source close by_bybit) _ h4 in
      let (p, priced, h6) = >>=-eq-ok (prices lib source (if by_bybit then 6 else 7)) _ h5 in
      let (fits, h7) = guard-eq-ok (bounded lib p) invalid_upstream_data _ h6 in
      let (open_fits, close_fits) = of_bounded p fits in
      subst (λ k. InPage started fetched (stored_row lib started fetched k))
        (ok_value (candle_of lib request t close count p) c h7)
        (record {
          own_series = refl;
          starts = ground arith;
          within = ground arith;
          closes = replaced-ok invalid_upstream_data (next calendar t) close moved;
          open_price_bounds = open_fits;
          close_price_bounds = close_fits;
          evidence = (refl, refl);
        })

  candles-InPage :
      (ctx : Context) (n : ℕ) (started fetched : Time) (sources : List (List Text))
      (rows : List (Stored D))
      → candles lib ctx n request calendar started fetched sources ≡ ok rows
      → All (InPage started fetched) rows × (length rows ≡ length sources)
  unfolding candles
  candles-InPage ctx n started fetched [] rows h =
      subst (λ r. All (InPage started fetched) r × (length r ≡ 0)) (ok_value [] rows h) (tt, refl)
  candles-InPage ctx n started fetched (source ∷ sources) rows h =
      let (_, alive, h1) = >>=-eq-ok (check ctx n) _ h in
      let (c, made, h2) = >>=-eq-ok (candle lib request calendar source) _ h1 in
      let (rest, more, h3) =
        >>=-eq-ok (candles lib ctx (suc n) request calendar started fetched sources) _ h2 in
      let (others, count) = candles-InPage ctx (suc n) started fetched sources rest more in
      subst (λ r. All (InPage started fetched) r × (length r ≡ suc (length sources)))
        (ok_value (stored_row lib started fetched c ∷ rest) rows h3)
        ((candle-InPage started fetched source c made, others), ap suc count)

-- A page that `Klines` accepts has as many rows as the answer has tuples, and no more than the
-- request asks for. The rows are in strictly ascending order, and each is of the series of the
-- request, starts in its range at a slot of its calendar, ends with that slot, has its open and
-- close prices between its low and its high, and carries the times of the response.
pub klines-InPage :
    {D : Type 0} (lib : Decoding D) (ctx : Context) (request : Request) (sources : List (List Text))
    (started fetched : Time) (rows : List (Stored D))
    → klines lib ctx request sources started fetched ≡ ok rows
    → (calendar : Calendar) × (new_calendar request.query.exchange request.query.market
          request.query.interval
        ≡ ok calendar)
      × All (InPage lib request calendar started fetched) rows
      × Ascending rows
      × (length rows ≡ length sources)
      × (length sources ≤ request.limit)
unfolding klines
klines-InPage lib ctx request sources started fetched rows h =
    let (_, alive, h1) = >>=-eq-ok (check ctx 0) _ h in
    let (shape, h2) =
      guard-eq-ok
        (not (
          ltb request.limit (length sources)
          || is_zero started
          || is_zero fetched
          || after started fetched))
        invalid_upstream_data _ h1 in
    let (calendar, known, h3) =
      >>=-eq-ok
        (replaced invalid_upstream_data
          (new_calendar request.query.exchange request.query.market request.query.interval))
        _ h2 in
    let (page, loaded, h4) =
      >>=-eq-ok (candles lib ctx 1 request calendar started fetched sources) _ h3 in
    let (distinct, h5) =
      guard-eq-ok (no_duplicates lib (sort_by_time page)) invalid_upstream_data _ h4 in
    let (good, count) =
      candles-InPage lib request calendar ctx 1 started fetched sources page loaded in
    subst
      (λ r.
        (c : Calendar) × (new_calendar request.query.exchange request.query.market
            request.query.interval
          ≡ ok c)
        × All (InPage lib request c started fetched) r
        × Ascending r
        × (length r ≡ length sources)
        × (length sources ≤ request.limit))
      (ok_value (sort_by_time page) rows h5)
      (
        calendar,
        replaced-ok invalid_upstream_data
            (new_calendar request.query.exchange request.query.market request.query.interval)
            calendar known,
        sort-All (InPage lib request calendar started fetched) page good,
        Rising-Ascending lib (sort_by_time page) (sort-Rising page) distinct,
        length-sort page ∙ count,
        ground arith,
      )
