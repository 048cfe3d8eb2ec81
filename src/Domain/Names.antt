-- ===== src/Domain/Names.antt =====
-- The string types of internal/domain/market.go and the intervals of internal/domain/timeframe.go.
-- A Go string type with named constants is a data type with those constants; `other` stands for
-- every further string, told apart by a number.
use market_data.Prelude.{ℕ, Bool, true, false, ◌||◌, ltb, ℕ_discrete}

pub data Exchange : Type 0 where
  binance bybit : Exchange
  other : ℕ → Exchange

pub data Market : Type 0 where
  spot linear : Market
  other : ℕ → Market

pub data Timeframe : Type 0 where
  s1 m1 m3 m5 m15 m30 h1 h2 h4 h6 h8 h12 d1 d3 w1 month1 : Timeframe
  other : ℕ → Timeframe

unfoldable pub Exchange-discrete : Discrete Exchange
Exchange-discrete = hlevel ℕ_discrete

unfoldable pub Market-discrete : Discrete Market
Market-discrete = hlevel ℕ_discrete

unfoldable pub Timeframe-discrete : Discrete Timeframe
Timeframe-discrete = hlevel ℕ_discrete

unfoldable pub valid_exchange : Exchange → Bool
valid_exchange binance = true
valid_exchange bybit = true
valid_exchange _ = false

unfoldable pub valid_market : Market → Bool
valid_market spot = true
valid_market linear = true
valid_market _ = false

unfoldable pub seconds : Timeframe → ℕ
seconds s1 = 1
seconds m1 = 60
seconds m3 = 180
seconds m5 = 300
seconds m15 = 900
seconds m30 = 1800
seconds h1 = 3600
seconds h2 = 7200
seconds h4 = 14400
seconds h6 = 21600
seconds h8 = 28800
seconds h12 = 43200
seconds d1 = 86400
seconds d3 = 259200
seconds w1 = 604800
seconds _ = 0

abbrev pub is_month : Timeframe → Bool
is_month month1 = true
is_month _ = false

unfoldable pub valid_timeframe : Timeframe → Bool
unfolding seconds
valid_timeframe i = is_month i || ltb 0 (seconds i)
