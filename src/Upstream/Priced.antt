-- ===== src/Upstream/Priced.antt =====
-- `resolveCost` of internal/infrastructure/exchange/upstream/cost.go against the greatest costs
-- of `New`.
use market_data.Prelude.{
  ℕ, ◌≤◌, ◌≡◌, subst, arith, true, not, ◌&&◌, ◌||◌, if_cases, Option, none, some, is_some,
}
use market_data.Prelude.Int.{ℤ, pos, negsuc}
use market_data.Prelude.Map.{get}
use market_data.Prelude.Text.{bytes, same_text, Text-discrete}
use market_data.Errors.{Result, ok, err, guard, ◌>>=◌, >>=-eq-ok, unsupported_operation}
use market_data.Domain.Market.{Text}
use market_data.Upstream.{UpstreamScope, binance_spot, binance_linear, bybit, Operation, at, Cost}
use market_data.Upstream.Bootstrap.{scope_costs, linear_weight}
use market_data.Upstream.Price.{
  HttpRequest, Values, checked_values, spot_cost, linear_cost, bybit_cost, path_cost, page_weight,
  page_cost, is_klines, is_binance, value_of, complete_cost, resolve_cost,
}

-- A cost that is within those of its scope.
abbrev pub InCosts : UpstreamScope → ℕ → Cost → Type 0
InCosts scope maximum c = c.weight ≤ at (scope_costs scope maximum) c.operation

-- A result whose value, if it has one, satisfies P.
abbrev Good : (Cost → Type 0) → Result Cost → Type 0
Good P (ok c) = P c
Good P (err e) = Unit

path_cost-InCosts :
    (scope : UpstreamScope) (path : Text) (q : Values) (maximum : ℕ)
    → Good (InCosts scope maximum) (path_cost scope path q)
unfolding spot_cost linear_cost bybit_cost
path_cost-InCosts binance_spot path q maximum = ground arith
path_cost-InCosts binance_linear path q maximum = ground arith
path_cost-InCosts bybit path q maximum = ground arith

page_weight-le : (limit maximum : ℕ) → limit ≤ maximum → page_weight limit ≤ linear_weight maximum
unfolding page_weight linear_weight
page_weight-le limit maximum h = ground arith

klines_only : (op : Operation) → is_klines op ≡ true → op ≡ Operation.klines
klines_only op h = ground arith

page_cost-InCosts :
    (scope : UpstreamScope) (c : Cost) (maximum : ℕ) (limit : Option ℤ)
    → is_klines c.operation ≡ true
    → InCosts scope maximum c
    → Good (InCosts scope maximum) (page_cost scope c maximum limit)
unfolding page_cost
page_cost-InCosts scope c maximum none k h = tt
page_cost-InCosts scope c maximum (some (negsuc n)) k h = tt
page_cost-InCosts binance_spot c maximum (some (pos limit)) k h = ground arith
page_cost-InCosts binance_linear c maximum (some (pos limit)) k h =
    ground (arith, klines_only c.operation k, page_weight-le limit maximum)
page_cost-InCosts bybit c maximum (some (pos limit)) k h = ground arith

Good-ok : (P : Cost → Type 0) (r : Result Cost) {c : Cost} → r ≡ ok c → Good P r → P c
Good-ok P (ok d) {c} h g = subst P (unwrap h) g
  where
    unwrap : ok d ≡ ok c → d ≡ c
    unwrap h = cc
Good-ok P (err e) h g = cc

module _ (parse_query : Text → Option Values) (atoi : Text → Option ℤ) where
  complete_cost-InCosts :
      (scope : UpstreamScope) (q : Values) (maximum : ℕ) (c : Cost)
      → InCosts scope maximum c
      → Good (InCosts scope maximum) (complete_cost parse_query atoi scope q maximum c)
  complete_cost-InCosts scope q maximum c h =
      if_cases (Good (InCosts scope maximum)) (is_klines c.operation)
        (λ k. page_cost-InCosts scope c maximum (atoi (value_of (bytes "limit") q)) k h)
        (λ _.
          if_cases (Good (InCosts scope maximum))
            (is_binance scope
              && (is_some (get Text-discrete (bytes "symbol") q)
                  || is_some (get Text-discrete (bytes "symbols") q)))
            (λ _. tt) (λ _. h))

  -- Every request that `resolveCost` accepts weighs at most what `New` takes for the greatest
  -- weight of its operation in its scope, if the maximal page of candles is the same, whatever
  -- packages net/url and strconv answer.
  pub resolve_cost-InCosts :
      (scope : UpstreamScope) (request : HttpRequest) (maximum : ℕ) {c : Cost}
      → resolve_cost parse_query atoi scope request maximum ≡ ok c
      → InCosts scope maximum c
  unfolding resolve_cost
  resolve_cost-InCosts scope request maximum {c} h =
      let allowed =
        guard (same_text request.method (bytes "GET") && not request.has_body)
          unsupported_operation in
      let (_, _, h1) =
        >>=-eq-ok allowed
          (λ _. checked_values (parse_query request.raw_query) >>= λ q.
            path_cost scope request.path q >>= λ d.
            complete_cost parse_query atoi scope q maximum d)
          h in
      let (q, _, h2) =
        >>=-eq-ok (checked_values (parse_query request.raw_query))
          (λ q. path_cost scope request.path q >>= λ d.
            complete_cost parse_query atoi scope q maximum d)
          h1 in
      let (d, known, h3) =
        >>=-eq-ok (path_cost scope request.path q)
          (λ d. complete_cost parse_query atoi scope q maximum d) h2 in
      Good-ok (InCosts scope maximum) (complete_cost parse_query atoi scope q maximum d) h3 (
        complete_cost-InCosts scope q maximum d (
          Good-ok (InCosts scope maximum) (path_cost scope request.path q) known
            (path_cost-InCosts scope request.path q maximum)))
