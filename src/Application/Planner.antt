-- ===== src/Application/Planner.antt =====
-- internal/application/kline/fetch_planner.go: which pages of candles to load. The sizes
-- are numbers: the constructor refuses a negative one as it does 0.
pub mod Loading
pub mod Pages
pub mod Loop
pub mod Settled
pub mod Validity
pub mod Whole
pub mod Tests
use market_data.Prelude.{
  ℕ, zero, suc, ◌+◌, ◌-◌, Bool, true, false, not, ◌&&◌, ◌||◌, leb, ltb, ◌==◌, if◌then◌else◌, Option,
  none, some, List, [], ◌∷◌, length, ite, is_some, ℕ_discrete,
}
use market_data.Prelude.Int.{ℤ, pos, pos_part, ltb_ℤ}
use market_data.Prelude.Map.{Map, get, put}
use market_data.Errors.{
  Error, both, Result, ok, err, ◌>>=◌, ◌>>◌, guard, wrapped, invalid_parameter, invalid_filter,
  invalid_interval, invalid_range, request_too_large, range_out_of_retention, internal, slot_limit,
}
use market_data.Domain.Names.{
  Timeframe, Timeframe-discrete, valid_exchange, valid_market, valid_timeframe,
}
use market_data.Domain.Time.{Time, before, after, is_zero, unix}
use market_data.Domain.Timeframe.{Calendar, new_calendar, floor, next, count_slots, history_cutoff}
use market_data.Domain.Market.{Text, Kline}
use market_data.Application.Series.{
  Scope, Series, Query, Request, Stored, Scope-discrete, Series-discrete,
}
use market_data.Application.Snapshot.{select_snapshot}

pub record Planner : Type 0 where
  pub scope : Scope
  pub supported : List Timeframe
  pub history_candles : ℕ
  pub page_limit : ℕ

abbrev pub is_empty {ℓ} : {A : Type ℓ} → List A → Bool
is_empty [] = true
is_empty _ = false

-- Every supported interval has a calendar.
unfoldable pub check_supported : Scope → List Timeframe → Result (Unit {0})
check_supported scope [] = ok tt
check_supported scope (interval ∷ rest) = do
  calendar ← wrapped (both invalid_parameter) (new_calendar scope.exchange scope.market interval)
  check_supported scope rest

unfoldable pub new_planner : Scope → List Timeframe → ℕ → ℕ → Result Planner
unfolding valid_exchange valid_market check_supported
new_planner scope supported history limit = do
  guard
      (not (
        not (valid_exchange scope.exchange)
        || not (valid_market scope.market)
        || is_empty supported
        || leb history 0
        || leb limit 0))
      invalid_parameter
  check_supported scope supported
  ok (record {
    scope = scope;
    supported = supported;
    history_candles = history;
    page_limit = limit;
  })

-- `slices.Contains`.
unfoldable pub contains : List Timeframe → Timeframe → Bool
contains [] interval = false
contains (i ∷ rest) interval = ite (Timeframe-discrete i interval) true (contains rest interval)

-- `errors.Is(err, domain.ErrSlotLimit)`.
unfoldable pub is_slot_limit : Error → Bool
is_slot_limit slot_limit = true
is_slot_limit (both e f) = is_slot_limit e || is_slot_limit f
is_slot_limit _ = false

-- A count above the limit is reported after the shape of the range: until then it is `none`.
abbrev pub counted : Result ℤ → Result (Option ℤ)
counted (ok count) = ok (some count)
counted (err e) = if is_slot_limit e then ok none else err (both invalid_range e)

abbrev pub within_limit : Option ℤ → Result ℤ
within_limit (some count) = ok count
within_limit none = err request_too_large

-- A range may end in the current slot, and start there if it is empty.
unfoldable pub check_current : Calendar → Query → Time → Result (Unit {0})
check_current c q current =
    if after q.to current
    then (do
      end ← wrapped (both invalid_range) (next c current)
      guard (not (after q.to end || (after q.from current && not (q.from == q.to)))) invalid_range)
    else ok tt

unfoldable pub validate : Planner → Query → Time → Result (Calendar × ℤ)
validate p q now = do
  guard (not (leb p.history_candles 0 || leb p.page_limit 0)) invalid_parameter
  guard (ite (Scope-discrete q.scope p.scope) (not (is_empty q.symbol)) false) invalid_filter
  selected ←
      select_snapshot (p.scope ∷ [])
        (record { exchange = some q.exchange; market = some q.market; symbol = q.symbol })
  guard (valid_timeframe q.interval && contains p.supported q.interval) invalid_interval
  calendar ← wrapped (both invalid_interval) (new_calendar q.exchange q.market q.interval)
  guard (not (ltb_ℤ (unix q.from) (pos 0) || ltb_ℤ (unix q.to) (pos 0) || after q.from q.to))
      invalid_range
  size ← counted (count_slots calendar q.from q.to (pos p.history_candles))
  current ← wrapped (both invalid_range) (floor calendar now)
  check_current calendar q current
  count ← within_limit size
  cutoff ← wrapped (both invalid_range) (history_cutoff calendar now (pos p.history_candles))
  guard (not (before q.from cutoff)) range_out_of_retention
  ok (calendar, count)
