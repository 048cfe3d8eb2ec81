-- ===== src/Upstream.antt =====
-- internal/infrastructure/exchange/upstream: the windows, the costs and the reservations by which
-- the service keeps its requests within the limits of the exchanges. An int is a number with its
-- greatest value written out; a duration is its nanoseconds. A clock is later than the longest
-- window after the zero of `Time`.
pub mod Percent
pub mod Usage
pub mod Prune
pub mod Spent
pub mod Expiry
pub mod Admission
pub mod Bootstrap
pub mod Price
pub mod Priced
pub mod Retry
pub mod Tests
use market_data.Prelude.{
  ℕ, ◌+◌, ◌-◌, ◌*◌, ◌/◌, ◌%◌, Bool, true, false, not, ◌&&◌, ltb, leb, if◌then◌else◌, Option, none,
  some, List, [], ◌∷◌, ℕ_discrete, max,
}
use market_data.Prelude.Map.{Map, get, keep}
use market_data.Domain.Market.{Text}
use market_data.Domain.Time.{Time, before, after, is_zero, zero_time}

pub data UpstreamScope : Type 0 where
  binance_spot binance_linear bybit : UpstreamScope

pub data Operation : Type 0 where
  tickers klines instruments market_stats : Operation

-- `[operationCount]T`.
pub record PerOperation {ℓ} (A : Type ℓ) : Type ℓ where
  pub tickers : A
  pub klines : A
  pub instruments : A
  pub market_stats : A

abbrev pub at {ℓ} : {A : Type ℓ} → PerOperation A → Operation → A
at s Operation.tickers = s.tickers
at s Operation.klines = s.klines
at s Operation.instruments = s.instruments
at s Operation.market_stats = s.market_stats

-- `s[op] = f(s[op])`.
abbrev pub change {ℓ} : {A : Type ℓ} → Operation → (A → A) → PerOperation A → PerOperation A
change Operation.tickers f s = record s { tickers = f s.tickers }
change Operation.klines f s = record s { klines = f s.klines }
change Operation.instruments f s = record s { instruments = f s.instruments }
change Operation.market_stats f s = record s { market_stats = f s.market_stats }

-- `unit` is "weight" or "requests".
pub data Measure : Type 0 where
  weight requests : Measure

pub data Source : Type 0 where
  bootstrap exchange_info : Source

pub record Window : Type 0 where
  pub measure : Measure
  pub duration : ℕ
  pub ceiling : ℕ
  pub user_cap : ℕ
  pub source : Source
  pub updated_at : Time
  pub limit : ℕ
  pub split : Bool
  pub funding : Bool

pub record Cost : Type 0 where
  pub operation : Operation
  pub weight : ℕ
  pub funding : Bool

pub record Observation : Type 0 where
  pub used : ℕ
  pub expires : Time

-- `ticket` tells the reservations apart, as their addresses do.
pub record Entry : Type 0 where
  pub ticket : ℕ
  pub at : Time
  pub cost : Cost
  pub received : Time
  pub dispatched : Bool
  pub inflight : Bool
  pub observations : Map ℕ Observation

pub record ScopeState : Type 0 where
  pub windows : Map Text Window
  pub keep_inflight : Bool
  pub history : List Entry
  pub history_since : Time
  pub spacing : ℕ
  pub next : Time
  pub cooldown : Time
  pub shares : PerOperation ℕ
  pub max_costs : PerOperation ℕ

abbrev pub max_int : ℕ
max_int = 9223372036854775807

unfoldable pub percent : ℕ → ℕ → ℕ
percent value share = value / 100 * share + value % 100 * share / 100

unfoldable pub window_cost : Window → Cost → ℕ
window_cost w c = if w.funding && not c.funding then 0 else amount w.measure c
  where
    amount : Measure → Cost → ℕ
    amount Measure.weight c = c.weight
    amount Measure.requests c = 1

unfoldable pub add_usage : ℕ → ℕ → ℕ
add_usage a b = if ltb (max_int - a) b then max_int else a + b

abbrev pub max_time : Time → Time → Time
max_time a b = if after b a then b else a

unfoldable pub earlier : Time → Time → Time
earlier a b = if is_zero a then b else if before b a then b else a
