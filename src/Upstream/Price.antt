-- ===== src/Upstream/Price.antt =====
-- `resolveCost` of internal/infrastructure/exchange/upstream/cost.go, with `parseQuery` of
-- transport.go beside it. Packages net/url and strconv are not under this repository: their
-- answers are parameters.
use market_data.Prelude.{
  ℕ, Bool, true, false, not, ◌&&◌, ◌||◌, ltb, leb, ◌==◌, if◌then◌else◌, Option, none, some, is_some,
  List, [], ◌∷◌, length,
}
use market_data.Prelude.Int.{ℤ, pos, negsuc}
use market_data.Prelude.Map.{Map, get}
use market_data.Prelude.Text.{bytes, same_text, Text-discrete}
use market_data.Errors.{
  Result, ok, err, guard, ◌>>◌, ◌>>=◌, unsupported_operation, invalid_parameter,
}
use market_data.Domain.Market.{Text}
use market_data.Upstream.{UpstreamScope, binance_spot, binance_linear, bybit, Operation, Cost}

-- What the code reads of an `*http.Request`. The body is neither nil nor `http.NoBody`, or it is.
pub record HttpRequest : Type 0 where
  pub method : Text
  pub has_body : Bool
  pub path : Text
  pub raw_query : Text

abbrev pub Values : Type 0
Values = Map Text (List Text)

abbrev single_value : List Text → Bool
single_value (v ∷ []) = not (length v == 0)
single_value _ = false

abbrev pub single_values : Values → Bool
single_values [] = true
single_values ((k, v) ∷ m) = single_value v && single_values m

abbrev pub checked_values : Option Values → Result Values
checked_values none = err invalid_parameter
checked_values (some values) = if single_values values then ok values else err invalid_parameter

abbrev first_value : Option (List Text) → Text
first_value (some (v ∷ vs)) = v
first_value _ = []

-- `q.Get(key)`.
abbrev pub value_of : Text → Values → Text
value_of key q = first_value (get Text-discrete key q)

abbrev pub priced : Operation → ℕ → Cost
priced operation weight = record { operation = operation; weight = weight; funding = false }

abbrev pub funding_info : Cost
funding_info = record { operation = Operation.instruments; weight = 0; funding = true }

unfoldable pub spot_cost : Text → Values → Result Cost
spot_cost path q =
    if same_text path (bytes "/api/v3/exchangeInfo")
    then ok (priced Operation.instruments 20)
    else if same_text path (bytes "/api/v3/ticker/price")
        || same_text path (bytes "/api/v3/ticker/bookTicker")
    then ok (priced Operation.tickers 4)
    else if same_text path (bytes "/api/v3/ticker/24hr")
    then (let kind = value_of (bytes "type") q in
        if same_text kind [] || same_text kind (bytes "FULL")
        then ok (priced Operation.market_stats 80)
        else err unsupported_operation)
    else if same_text path (bytes "/api/v3/klines")
    then ok (priced Operation.klines 2)
    else err unsupported_operation

unfoldable pub linear_cost : Text → Result Cost
linear_cost path =
    if same_text path (bytes "/fapi/v1/exchangeInfo")
    then ok (priced Operation.instruments 1)
    else if same_text path (bytes "/fapi/v1/fundingInfo")
    then ok funding_info
    else if same_text path (bytes "/fapi/v2/ticker/price")
    then ok (priced Operation.tickers 2)
    else if same_text path (bytes "/fapi/v1/ticker/bookTicker")
    then ok (priced Operation.tickers 5)
    else if same_text path (bytes "/fapi/v1/premiumIndex")
    then ok (priced Operation.tickers 10)
    else if same_text path (bytes "/fapi/v1/ticker/24hr")
    then ok (priced Operation.market_stats 40)
    else if same_text path (bytes "/fapi/v1/klines")
    then ok (priced Operation.klines 0)
    else err unsupported_operation

unfoldable pub bybit_cost : Text → Values → Result Cost
bybit_cost path q =
    let category = value_of (bytes "category") q in
    if not (same_text category (bytes "spot") || same_text category (bytes "linear"))
    then err unsupported_operation
    else if same_text path (bytes "/v5/market/instruments-info")
    then ok (priced Operation.instruments 0)
    else if same_text path (bytes "/v5/market/tickers")
    then ok (priced Operation.tickers 0)
    else if same_text path (bytes "/v5/market/kline")
    then ok (priced Operation.klines 0)
    else err unsupported_operation

abbrev pub path_cost : UpstreamScope → Text → Values → Result Cost
path_cost binance_spot path q = spot_cost path q
path_cost binance_linear path q = linear_cost path
path_cost bybit path q = bybit_cost path q

unfoldable pub page_weight : ℕ → ℕ
page_weight limit =
    if ltb limit 100 then 1 else if ltb limit 500 then 2 else if leb limit 1000 then 5 else 10

-- The weight of a page of candles, by its limit.
unfoldable pub page_cost : UpstreamScope → Cost → ℕ → Option ℤ → Result Cost
unfolding page_weight
page_cost scope c maximum none = err unsupported_operation
page_cost scope c maximum (some (negsuc n)) = err unsupported_operation
page_cost scope c maximum (some (pos limit)) =
    if ltb limit 1 || ltb maximum limit then err unsupported_operation else ok (weighed scope)
  where
    weighed : UpstreamScope → Cost
    weighed binance_linear = record c { weight = page_weight limit }
    weighed _ = c

abbrev pub is_klines : Operation → Bool
is_klines Operation.klines = true
is_klines _ = false

abbrev pub is_binance : UpstreamScope → Bool
is_binance bybit = false
is_binance _ = true

module _ (parse_query : Text → Option Values) (atoi : Text → Option ℤ) where
  abbrev pub complete_cost : UpstreamScope → Values → ℕ → Cost → Result Cost
  complete_cost scope q maximum c =
      if is_klines c.operation
      then page_cost scope c maximum (atoi (value_of (bytes "limit") q))
      else if is_binance scope
          && (is_some (get Text-discrete (bytes "symbol") q)
              || is_some (get Text-discrete (bytes "symbols") q))
      then err unsupported_operation
      else ok c

  unfoldable pub resolve_cost : UpstreamScope → HttpRequest → ℕ → Result Cost
  unfolding spot_cost linear_cost bybit_cost page_cost
  resolve_cost scope request maximum =
      guard (same_text request.method (bytes "GET") && not request.has_body) unsupported_operation
      >> (checked_values (parse_query request.raw_query) >>= λ q.
          path_cost scope request.path q >>= λ c. complete_cost scope q maximum c)
