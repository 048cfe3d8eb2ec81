-- ===== src/Storage/Klines/Read.antt =====
-- `GetRange`, `DeleteBefore` and `CandleCounts` of kline.go.
use market_data.Prelude.{
  ℕ, suc, ◌+◌, Bool, true, false, not, ◌&&◌, leb, if◌then◌else◌, Option, none, some, List, [], ◌∷◌,
  ite, length,
}
use market_data.Prelude.Map.{Map, get, put}
use market_data.Errors.{
  Result, ok, err, both, ◌>>=◌, ◌>>◌, guard, wrapped, invalid_interval, invalid_range,
}
use market_data.Domain.Names.{Timeframe, Timeframe-discrete}
use market_data.Domain.Time.{Time, before, after}
use market_data.Domain.Timeframe.{new_calendar, validate_boundary}
use market_data.Application.Context.{Context, check}
use market_data.Application.Series.{Scope, Series, Query, Stored, Scope-discrete, Series-discrete}
use market_data.Storage.Klines.{
  Rows, Table, CandleScope, CandleScope-discrete, StoredCandle, Repository, series_calendar,
  validate_scope, rows_at, candle, prune,
}

abbrev pub in_range : Query → Time → Bool
in_range q start = not (before start q.from) && before start q.to

abbrev pub in_scope : Scope → Timeframe → Series → Bool
in_scope scope interval s =
    ite (Scope-discrete s.scope scope) (ite (Timeframe-discrete s.interval interval) true false)
      false

abbrev pub keys {ℓ} : {V : Type ℓ} → List (Series × V) → List Series
keys [] = []
keys ((s, v) ∷ m) = s ∷ keys m

-- The later of the requested cutoff and the one applied before.
abbrev pub later : Time → Option Time → Time
later t none = t
later t (some applied) = if after applied t then applied else t

-- The checks of `DeleteBefore` before and after it takes the lock.
unfoldable pub validated : Context → Scope → Timeframe → Time → Result (Unit {0})
validated ctx scope interval cutoff = do
  check ctx 0
  validate_scope scope
  calendar ← wrapped (both invalid_interval) (new_calendar scope.exchange scope.market interval)
  wrapped (both invalid_range) (validate_boundary calendar cutoff)
  check ctx 1

abbrev pub count_at : Option ℕ → ℕ
count_at none = 0
count_at (some n) = n

module _ {D : Type 0} where
  abbrev pub stored : Series → Time → StoredCandle D → Stored D
  stored s start row = record {
    candle = candle row s start;
    request_started_at = row.request_started_at;
  }

  -- The loop over the rows of the series.
  unfoldable pub select : Context → ℕ → Query → Rows D → Result (List (Stored D))
  select ctx n q [] = ok []
  select ctx n q ((start, row) ∷ rows) = do
    check ctx n
    rest ← select ctx (suc n) q rows
    ok (if in_range q start then stored q.series start row ∷ rest else rest)

  -- `slices.SortFunc` by open time, as an insertion sort; the keys of a map are distinct.
  unfoldable pub insert_by_time : Stored D → List (Stored D) → List (Stored D)
  insert_by_time x [] = x ∷ []
  insert_by_time x (y ∷ ys) =
      if leb x.candle.open_time y.candle.open_time then x ∷ y ∷ ys else y ∷ insert_by_time x ys

  unfoldable pub sort_by_time : List (Stored D) → List (Stored D)
  sort_by_time [] = []
  sort_by_time (x ∷ xs) = insert_by_time x (sort_by_time xs)

  unfoldable pub get_range : Context → Query → Repository D → Result (List (Stored D))
  get_range ctx q r = do
    check ctx 0
    calendar ← series_calendar q.series
    guard (not (after q.from q.to)) invalid_range
    wrapped (both invalid_range) (validate_boundary calendar q.from)
    wrapped (both invalid_range) (validate_boundary calendar q.to)
    check ctx 1
    found ← select ctx 2 q (rows_at (get Series-discrete q.series r.series))
    ok (sort_by_time found)

  -- The loop over the series that the map holds: a canceled context leaves it half done.
  unfoldable pub prune_scope :
      Context → ℕ → Scope → Timeframe → Time → List Series → Table D → Table D × Result (Unit {0})
  prune_scope ctx n scope interval cutoff [] m = (m, ok tt)
  prune_scope ctx n scope interval cutoff (s ∷ rest) m =
      let next =
        prune_scope ctx (suc n) scope interval cutoff rest
          (if in_scope scope interval s then prune s cutoff m else m) in
      elim (ctx n) [ none ↦ next | some e ↦ (m, err e) ]

  unfoldable pub delete_before :
      Context → Scope → Timeframe → Time → Repository D → Repository D × Result (Unit {0})
  delete_before ctx scope interval cutoff r = elim (validated ctx scope interval cutoff) [
    | err e ↦ (r, err e)
    | ok _ ↦
        let key : CandleScope = record { scope = scope; interval = interval } in
        let final = later cutoff (get CandleScope-discrete key r.cutoffs) in
        let (m, result) = prune_scope ctx 2 scope interval final (keys r.series) r.series in
        (record r { series = m; cutoffs = put CandleScope-discrete key final r.cutoffs }, result)
  ]

  -- The loop of `CandleCounts`.
  unfoldable pub count_series : Context → ℕ → Table D → Map Scope ℕ → Result (Map Scope ℕ)
  count_series ctx n [] counts = ok counts
  count_series ctx n ((s, rows) ∷ rest) counts = do
    check ctx n
    count_series ctx (suc n) rest (
        put Scope-discrete s.scope (count_at (get Scope-discrete s.scope counts) + length rows)
          counts)

  unfoldable pub candle_counts : Context → Repository D → Result (Map Scope ℕ)
  unfolding count_series
  candle_counts ctx r = do check ctx 0; count_series ctx 1 r.series []
