-- ===== src/Application/Planner/Loading.antt =====
-- internal/application/kline/fetch_planner.go: `finalSlots` and `Planner.plan`, and the
-- `refreshes` of internal/application/kline/service.go that they use. A page under construction
-- with `Limit == 0` is `none`.
use market_data.Prelude.{
  ℕ, zero, suc, ◌+◌, ◌-◌, Bool, true, false, not, ◌&&◌, ◌||◌, leb, ◌==◌, if◌then◌else◌, Option,
  none, some, List, [], ◌∷◌, length, ite, is_some, ℕ_discrete,
}
use market_data.Prelude.Int.{ℤ, pos, pos_part, ltb_ℤ}
use market_data.Prelude.Map.{Map, get, put}
use market_data.Errors.{Result, ok, err, ◌>>=◌, ◌>>◌, guard, invalid_range, internal}
use market_data.Domain.Time.{Time, before, after, is_zero}
use market_data.Domain.Timeframe.{Calendar, next}
use market_data.Application.Series.{Series, Query, Request, Stored, Series-discrete}
use market_data.Application.Planner.{Planner, validate}

abbrev ends_at : Result Time → Time → Bool
ends_at (ok close) t = close == t
ends_at (err e) t = false

pub record Evidence : Type 0 where
  pub started : Time
  pub fetched : Time

abbrev pub Refreshes : Type 0
Refreshes = Map Time Evidence

module _ {D : Type 0} where
  abbrev pub row_series : Stored D → Series
  row_series row = record {
    scope = record { exchange = row.candle.exchange; market = row.candle.market };
    symbol = row.candle.symbol;
    interval = row.candle.interval;
  }

  -- The checks of one cached row, in their order.
  unfoldable pub check_cached : Query → Calendar → Stored D → Result (Unit {0})
  check_cached q c row = do
    guard (ite (Series-discrete (row_series row) q.series) true false) internal
    guard (not (before row.candle.open_time q.from || not (before row.candle.open_time q.to)))
        internal
    guard (ends_at (next c row.candle.open_time) row.candle.close_time) internal
    guard
        (not (
          is_zero row.request_started_at
          || is_zero row.candle.fetched_at
          || after row.request_started_at row.candle.fetched_at))
        internal

  -- The slot of the candle is over, and the request for it started after that.
  abbrev pub is_closed : Time → Stored D → Bool
  is_closed now row =
      not (before now row.candle.close_time)
      && not (before row.request_started_at row.candle.close_time)

  -- One cached row and its entry of the map.
  unfoldable pub final_slot :
      Query → Calendar → Time → Stored D → Map Time Bool → Result (Map Time Bool)
  final_slot q c now row final = do
    check_cached q c row
    guard (not (is_some (get ℕ_discrete row.candle.open_time final))) internal
    ok (put ℕ_discrete row.candle.open_time (is_closed now row) final)

  unfoldable pub final_rows :
      Query → Calendar → Time → List (Stored D) → Map Time Bool → Result (Map Time Bool)
  final_rows q c now [] final = ok final
  final_rows q c now (row ∷ rows) final = do
    final' ← final_slot q c now row final
    final_rows q c now rows final'

  unfoldable pub final_slots :
      Query → Calendar → ℤ → List (Stored D) → Time → Result (Map Time Bool)
  final_slots q c count cached now = do
    guard (not (ltb_ℤ count (pos (length cached)))) internal
    final_rows q c now cached []

  abbrev recent : Option Evidence → Stored D → Time → Bool
  recent none row now = false
  recent (some e) row now =
      before now row.candle.close_time
      && not (before row.request_started_at e.started)
      && (not (row.request_started_at == e.started) || not (before row.candle.fetched_at e.fetched))

  unfoldable pub accepts : Refreshes → Stored D → Time → Bool
  accepts refreshed row now = recent (get ℕ_discrete row.candle.open_time refreshed) row now

  -- A row that this caller has just loaded counts as final.
  unfoldable pub accept_rows : Refreshes → Time → List (Stored D) → Map Time Bool → Map Time Bool
  accept_rows refreshed now [] final = final
  accept_rows refreshed now (row ∷ rows) final =
      accept_rows refreshed now rows (
        if accepts refreshed row now then put ℕ_discrete row.candle.open_time true final else final)

-- A missing key of the Go map reads as false.
abbrev pub is_true : Option Bool → Bool
is_true none = false
is_true (some b) = b

-- The page under construction, and the number of its first slot.
pub record Page : Type 0 where
  pub request : Request
  pub start : ℕ

-- The slots of a page from `start` to `slot`, which ends at `end`.
abbrev pub extend : Page → ℕ → Time → Page
extend page slot end = record {
  request = record {
    query = record { series = page.request.query.series; from = page.request.query.from; to = end };
    limit = (slot - page.start) + 1;
  };
  start = page.start;
}

abbrev pub new_page : Query → ℕ → Time → Time → Page
new_page q slot opens end = record {
  request = record { query = record { series = q.series; from = opens; to = end }; limit = 1 };
  start = slot;
}

-- What a slot that is not final adds: a finished page, if any, and the page with the slot.
unfoldable pub place : Query → ℕ → ℕ → Time → Time → Option Page → Option Request × Page
place q limit slot opens end none = (none, new_page q slot opens end)
place q limit slot opens end (some page) =
    if leb limit (slot - page.start)
    then (some page.request, new_page q slot opens end)
    else (none, extend page slot end)

abbrev pub emit : Option Request → List Request → List Request
emit none requests = requests
emit (some r) requests = r ∷ requests

abbrev pub flush : Option Page → List Request
flush none = []
flush (some page) = page.request ∷ []

abbrev pub advanced : Time → Time → Result Time → Result Time
advanced opens last (err e) = err invalid_range
advanced opens last (ok end) = do
  guard (not (not (after end opens) || after end last)) invalid_range
  ok end

-- `calendar.Next(open)`, if it goes on within the query.
unfoldable pub advance : Calendar → Query → Time → Result Time
advance c q opens = advanced opens q.to (next c opens)

-- The loop over the n slots from `slot` on, which starts at `opens`.
unfoldable pub pages :
    Calendar → Query → ℕ → Map Time Bool → ℕ → ℕ → Time → Option Page → Result (List Request)
pages c q limit final zero slot opens pending = ok (flush pending)
pages c q limit final (suc n) slot opens pending = do
  end ← advance c q opens
  let placed = place q limit slot opens end pending
  let done = is_true (get ℕ_discrete opens final)
  rest ← pages c q limit final n (suc slot) end (if done then pending else some placed.1)
  ok (if done then rest else emit placed.0 rest)

unfoldable pub plan :
    {D : Type 0} → Planner → Query → List (Stored D) → Time → Refreshes → Result (List Request)
plan p q cached now refreshed = do
  (c, count) ← validate p q now
  final ← final_slots q c count cached now
  pages c q p.page_limit (accept_rows refreshed now cached final) (pos_part count) 0 q.from none
