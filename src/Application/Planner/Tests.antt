-- ===== src/Application/Planner/Tests.antt =====
-- Plans of internal/application/kline/fetch_planner.go for a concrete query.
use market_data.Prelude.{ℕ, suc, ◌+◌, ◌-◌, ◌*◌, ◌≤◌, ◌≡◌, refl, [], ◌∷◌, none, ℕ_discrete}
use market_data.Prelude.Int.{pos, ◌*ℤ◌}
use market_data.Prelude.Map.{get, put}
use market_data.Errors.{ok}
use market_data.Domain.Names.{
  Timeframe-discrete, binance, spot, m1, valid_exchange, valid_market, valid_timeframe,
}
use market_data.Domain.Time.{
  Time, second, unix_epoch, year, year_of_day, year_start, leap, month_of_day,
}
use market_data.Domain.Timeframe.{
  Calendar, new_calendar, floor, validate_boundary, shift, shift_seconds, next, count_slots,
  history_cutoff,
}
use market_data.Domain.Timeframe.Boundaries.{boundaries}
use market_data.Domain.Timeframe.Shift.{IsBoundary}
use market_data.Application.Series.{Query, Request, Stored, Scope-discrete, Series-discrete}
use market_data.Application.Snapshot.{select_snapshot}
use market_data.Application.Planner.{Planner, contains, check_current, validate, new_planner}
use market_data.Application.Planner.Loading.{
  check_cached, final_slot, final_rows, final_slots, accepts, accept_rows, place, advance, pages,
  plan,
}
use market_data.Application.Planner.Pages.{IsPlan}
use market_data.Application.Planner.Settled.{settled}
use market_data.Application.Planner.Whole.{plan-IsPlan, validate-window}

abbrev pub planner : Planner
planner = record {
  scope = record { exchange = binance; market = spot };
  supported = m1 ∷ [];
  history_candles = 100;
  page_limit = 2;
}

-- Second s of minute n of Unix time.
abbrev pub instant : ℕ → ℕ → Time
instant n s = (unix_epoch + n * 60 + s) * second

abbrev pub query : Query
query = record {
  series = record {
    scope = record { exchange = binance; market = spot };
    symbol = 66 ∷ [];
    interval = m1;
  };
  from = instant 995 0;
  to = instant 1001 0;
}

-- The candle of minute n, requested 70 seconds after its start.
abbrev pub cached_row : ℕ → Stored ℕ
cached_row n = record {
  candle = record {
    exchange = binance;
    market = spot;
    symbol = 66 ∷ [];
    interval = m1;
    open_time = instant n 0;
    close_time = instant n 60;
    open_price = 1;
    high = 1;
    low = 1;
    close_price = 1;
    volume = 1;
    turnover = 1;
    trades_count = none;
    fetched_at = instant n 71;
  };
  request_started_at = instant n 70;
}

abbrev pub clock : Time
clock = instant 1000 30

abbrev pub page : ℕ → ℕ → Request
page n limit = record {
  query = record { series = query.series; from = instant n 0; to = instant (n + limit) 0 };
  limit = limit;
}

abbrev calendar : Calendar
calendar = record { interval = m1; anchor = 0 }

-- What a run of the planner unfolds.
unfoldable pub planner_run : ℕ
unfolding plan validate select_snapshot contains new_calendar count_slots floor check_current
    history_cutoff next shift shift_seconds validate_boundary valid_timeframe valid_exchange
    valid_market final_slots final_rows final_slot check_cached accept_rows accepts pages place
    advance get put ℕ_discrete Series-discrete Scope-discrete Timeframe-discrete ◌*ℤ◌ year_of_day
    year_start year leap month_of_day new_planner
planner_run = 0

built : new_planner planner.scope (m1 ∷ []) 100 2 ≡ ok planner
unfolding planner_run
built = refl

accepted : validate planner query clock ≡ ok (calendar, pos 6)
unfolding planner_run
accepted = refl

known : new_calendar binance spot m1 ≡ ok calendar
unfolding planner_run
known = refl

-- Minutes 996 and 997 are settled.
planned :
    plan planner query (cached_row 996 ∷ cached_row 997 ∷ []) clock []
    ≡ ok (page 995 1 ∷ page 998 2 ∷ page 1000 1 ∷ [])
unfolding planner_run
planned = refl

plan-IsPlan_example :
    IsPlan calendar query 2
      (settled [] clock (cached_row 996 ∷ cached_row 997 ∷ []))
      ((boundaries calendar).index (instant 995 0))
      ((boundaries calendar).index (instant 1001 0))
      (page 995 1 ∷ page 998 2 ∷ page 1000 1 ∷ [])
plan-IsPlan_example =
    plan-IsPlan planner query (cached_row 996 ∷ cached_row 997 ∷ []) clock [] calendar
      (page 995 1 ∷ page 998 2 ∷ page 1000 1 ∷ []) known planned

validate-window_example :
    let i = (boundaries calendar).index query.from in
    let j = (boundaries calendar).index query.to in
    let current = (boundaries calendar).index clock in
    IsBoundary calendar query.from
    × IsBoundary calendar query.to
    × (i ≤ j)
    × (pos 6 ≡ pos (j - i))
    × (j - i ≤ planner.history_candles)
    × (current - planner.history_candles ≤ i)
    × (j ≤ suc current)
validate-window_example = validate-window planner query clock calendar (pos 6) accepted
