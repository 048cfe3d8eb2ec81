-- ===== src/Normalization/Current.antt =====
-- internal/infrastructure/exchange/normalization/current.go: quotes, funding, counts and
-- statistics of rows, and the contract types of the known instruments.
use market_data.Prelude.{
  ℕ, suc, ◌*◌, Bool, true, false, not, ◌&&◌, ◌||◌, if◌then◌else◌, Option, none, some, List, [], ◌∷◌,
  is_some,
}
use market_data.Prelude.Int.{ℤ, pos, negsuc}
use market_data.Prelude.Map.{Map, get, put}
use market_data.Prelude.Text.{bytes, same_text, Text-discrete}
use market_data.Errors.{
  Error, Result, err, ok, ◌>>=◌, ◌>>◌, guard, invalid_upstream_data, data_not_ready, both,
}
use market_data.Domain.Names.{Exchange, Market, bybit, spot}
use market_data.Domain.Market.{Text}
use market_data.Domain.Snapshot.{Instrument, MarketStats, ContractType, perpetual, expiry}
use market_data.Domain.Time.{Time, second}
use market_data.Application.Context.{Context, check}
use market_data.Application.Series.{Scope}
use market_data.Normalization.{
  Decoding, Row, invalid, valid_if, raw, text, symbol, decimal, required_decimal, delisting,
}

abbrev has_key : Row → Text → Bool
has_key row key = is_some (get Text-discrete key row)

-- `errors.Is(err, application.ErrDataNotReady)`.
abbrev pub is_not_ready : Error → Bool
is_not_ready data_not_ready = true
is_not_ready (both e f) = is_not_ready e || is_not_ready f
is_not_ready _ = false

abbrev is_spot : Market → Bool
is_spot spot = true
is_spot _ = false

abbrev add_contracts :
    {D : Type 0} → List (Instrument D) → Map Text ContractType → Map Text ContractType
add_contracts [] m = m
add_contracts (row ∷ rows) m = add_contracts rows (put Text-discrete row.symbol row.contract_type m)

abbrev contracts_of : {D : Type 0} → Result (List (Instrument D)) → Result (Map Text ContractType)
contracts_of (err e) = if is_not_ready e then ok [] else err e
contracts_of (ok rows) = ok (add_contracts rows [])

-- `Contracts`: the answer of `repository.List` for the scope, where there is a repository.
unfoldable pub contracts :
    {D : Type 0} → Option (Result (List (Instrument D))) → Scope → Result (Map Text ContractType)
unfolding Text-discrete
contracts none scope = ok []
contracts (some listed) scope = if is_spot scope.market then ok [] else contracts_of listed

abbrev is_expiry : ContractType → Bool
is_expiry expiry = true
is_expiry _ = false

abbrev is_perpetual : ContractType → Bool
is_perpetual perpetual = true
is_perpetual _ = false

module _ {D : Type 0} (lib : Decoding D) where
  -- A price and a size: both, or neither, where a size of zero is none.
  abbrev quote_of : Option D → Option D → Result (Option D × Option D)
  quote_of none none = ok (none, none)
  quote_of (some price) (some size) =
      if lib.is_zero size
      then ok (none, none)
      else if lib.is_positive price
      then ok (some price, some size)
      else invalid
  quote_of _ _ = invalid

  unfoldable pub quote : Row → Text → Text → Result (Option D × Option D)
  unfolding decimal
  quote row price_key size_key = do
    price ← decimal lib row price_key false false
    size ← decimal lib row size_key false false
    quote_of price size

  abbrev funding_of : Row → Text → ContractType → Option Time → Result (Option D × Option Time)
  funding_of row rate_key kind next =
      if not (is_perpetual kind) && not (is_some next)
      then ok (none, none)
      else (decimal lib row rate_key false true >>= λ rate. ok (rate, next))

  unfoldable pub funding : Row → Market → ContractType → Text → Result (Option D × Option Time)
  unfolding text delisting decimal
  funding row market kind rate_key =
      if is_spot market || is_expiry kind then ok (none, none) else (do
        value ← text lib row (bytes "nextFundingTime")
        next ← delisting lib value
        funding_of row rate_key kind next)

  abbrev count_of : ℤ → Result (Option ℕ)
  count_of (negsuc n) = invalid
  count_of (pos n) = ok (some n)

  unfoldable pub count : Row → Result (Option ℕ)
  unfolding Text-discrete text raw
  count row = if not (has_key row (bytes "count")) then ok none else (do
    value ← text lib row (bytes "count")
    guard (not (same_text (raw row (bytes "count")) (bytes "null"))) invalid_upstream_data
    n ← valid_if (lib.parse_int value)
    count_of n)

  -- The loop of `Index` from the n-th check of the context on.
  unfoldable pub index_rows : Context → ℕ → List Row → Map Text Row → Result (Map Text Row)
  unfolding symbol Text-discrete
  index_rows ctx n [] found = ok found
  index_rows ctx n (row ∷ rows) found = do
    check ctx n
    name ← symbol lib row
    guard (not (is_some (get Text-discrete name found))) invalid_upstream_data
    index_rows ctx (suc n) rows (put Text-discrete name row found)

  abbrev is_bybit : Exchange → Bool
  is_bybit bybit = true
  is_bybit _ = false

  -- The names of the fields that an exchange sends.
  abbrev stat_fields : Bool → Text × Text × Text × Text
  stat_fields true =
      (bytes "highPrice24h", bytes "lowPrice24h", bytes "volume24h", bytes "turnover24h")
  stat_fields false = (bytes "highPrice", bytes "lowPrice", bytes "volume", bytes "quoteVolume")

  abbrev change_from : Row → Option D → Result (Option D)
  change_from row none = ok none
  change_from row (some previous) =
      if lib.is_positive previous
      then (required_decimal lib row (bytes "lastPrice") >>= λ last.
          ok (some (lib.subtract last previous)))
      else ok none

  -- The price change and the number of trades.
  unfoldable pub changes : Row → Bool → Result (Option D × Option ℕ)
  unfolding decimal count
  changes row true = do
    previous ← decimal lib row (bytes "prevPrice24h") false false
    change ← change_from row previous
    ok (change, none)
  changes row false = do
    change ← decimal lib row (bytes "priceChange") false true
    trades ← count row
    ok (change, trades)

  unfoldable pub statistic : Scope → Time → Row → Result (MarketStats D)
  unfolding symbol decimal changes
  statistic scope fetched row = do
    name ← symbol lib row
    let (high_key, low_key, volume_key, turnover_key) = stat_fields (is_bybit scope.exchange)
    high ← required_decimal lib row high_key
    low ← required_decimal lib row low_key
    volume ← required_decimal lib row volume_key
    turnover ← required_decimal lib row turnover_key
    changed ← changes row (is_bybit scope.exchange)
    ok (record {
      exchange = scope.exchange;
      market = scope.market;
      symbol = name;
      window = 86400 * second;
      high = high;
      low = low;
      volume = volume;
      turnover = turnover;
      price_change = changed.0;
      trade_count = changed.1;
      fetched_at = fetched;
    })

  unfoldable pub statistic_rows :
      Context → ℕ → Scope → Time → List Row → Result (List (MarketStats D))
  unfolding statistic
  statistic_rows ctx n scope fetched [] = ok []
  statistic_rows ctx n scope fetched (row ∷ rows) = do
    check ctx n
    stats ← statistic scope fetched row
    rest ← statistic_rows ctx (suc n) scope fetched rows
    ok (stats ∷ rest)

  -- `Statistics`: the contexts that `Index` and the loop after it see.
  unfoldable pub statistics :
      Context → Context → List Row → Scope → Time → Result (List (MarketStats D))
  unfolding index_rows statistic_rows
  statistics indexing reading rows scope fetched = do
    indexed ← index_rows indexing 0 rows []
    statistic_rows reading 0 scope fetched rows
