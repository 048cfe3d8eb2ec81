-- ===== src/Storage/Klines/Range.antt =====
-- `GetRange` of internal/infrastructure/storage/memory/kline.go against the abstract rows.
use market_data.Prelude.{
  ℕ, suc, ◌≡◌, refl, ◌∙◌, subst, ◌≤◌, ◌<◌, arith, false, not, Option, none, some, List, [], ◌∷◌,
  if◌then◌else◌, ◌==◌, All, inl, inr, ℕ_discrete, Bool-cases,
}
use market_data.Prelude.Map.{get, Unique, get_of_Fresh}
use market_data.Errors.{ok, both, wrapped, guard, invalid_range, >>=-eq-ok}
use market_data.Domain.Time.{Time, after}
use market_data.Domain.Timeframe.{validate_boundary}
use market_data.Application.Context.{Context, check}
use market_data.Application.Series.{Query, Stored}
use market_data.Storage.Klines.{series_calendar, Rows, Repository, StoredCandle, candle}
use market_data.Storage.Klines.Read.{
  stored, in_range, select, insert_by_time, sort_by_time, get_range,
}
use market_data.Storage.Klines.Merge.{rows_of, find, Tidy}

module _ {D : Type 0} where
  -- The row of a result that starts at a time.
  abbrev pub at : Time → List (Stored D) → Option (Stored D)
  at t [] = none
  at t (x ∷ xs) = if x.candle.open_time == t then some x else at t xs

  abbrev pub Ascending : List (Stored D) → Type 0
  Ascending [] = Unit
  Ascending (x ∷ xs) = All (λ y. x.candle.open_time < y.candle.open_time) xs × Ascending xs

  at-insert :
      (t : Time) (x : Stored D) (xs : List (Stored D))
      → at t (insert_by_time x xs) ≡ (if x.candle.open_time == t then some x else at t xs)
  unfolding insert_by_time
  at-insert t x [] = refl
  at-insert t x (y ∷ ys) = ground (arith, at-insert t x ys)

  at-sort : (t : Time) (xs : List (Stored D)) → at t (sort_by_time xs) ≡ at t xs
  unfolding sort_by_time
  at-sort t [] = refl
  at-sort t (x ∷ xs) = at-insert t x (sort_by_time xs) ∙ rw (at-sort t xs)

  insert-All :
      (n : Time) (x : Stored D) (xs : List (Stored D))
      → n < x.candle.open_time
      → All (λ y. n < y.candle.open_time) xs
      → All (λ y. n < y.candle.open_time) (insert_by_time x xs)
  unfolding insert_by_time
  insert-All n x [] h a = (h, tt)
  insert-All n x (y ∷ ys) h a = ground (arith, insert-All n x ys)

  All-mono :
      (m n : Time) (xs : List (Stored D))
      → m ≤ n
      → All (λ y. n < y.candle.open_time) xs
      → All (λ y. m < y.candle.open_time) xs
  All-mono m n [] h a = tt
  All-mono m n (x ∷ xs) h a = (omega arith, All-mono m n xs h a.1)

  insert-Ascending :
      (x : Stored D) (xs : List (Stored D))
      → at x.candle.open_time xs ≡ none
      → Ascending xs
      → Ascending (insert_by_time x xs)
  unfolding insert_by_time
  insert-Ascending x [] h a = (tt, tt)
  insert-Ascending x (y ∷ ys) h a = ground (
    arith,
    insert-Ascending x ys,
    insert-All y.candle.open_time x ys,
    All-mono x.candle.open_time y.candle.open_time ys,
  )

  -- The rows of a map in a range, with no context to cancel the loop.
  selected : Query → Rows D → List (Stored D)
  selected q [] = []
  selected q ((t, row) ∷ rows) =
      let rest = selected q rows in if in_range q t then stored q.series t row ∷ rest else rest

  select-selected :
      (ctx : Context) (n : ℕ) (q : Query) (rows : Rows D) (xs : List (Stored D))
      → select ctx n q rows ≡ ok xs
      → selected q rows ≡ xs
  unfolding select selected
  select-selected ctx n q [] xs h = ground arith
  select-selected ctx n q ((t, row) ∷ rows) xs h =
      let (alive, checked, h1) = >>=-eq-ok (check ctx n) _ h in
      let (rest, loaded, h2) =
        >>=-eq-ok (select ctx (suc n) q rows)
          (λ rest. ok (if in_range q t then stored q.series t row ∷ rest else rest)) h1 in
      rw (select-selected ctx (suc n) q rows rest loaded) (ground arith)

  -- A row as `GetRange` returns it.
  abbrev pub returned : Query → Time → Option (StoredCandle D) → Option (Stored D)
  returned q t none = none
  returned q t (some row) = if in_range q t then some (stored q.series t row) else none

  returned_outside :
      (q : Query) (t : Time) (o : Option (StoredCandle D))
      → in_range q t ≡ false
      → returned q t o ≡ none
  returned_outside q t none h = refl
  returned_outside q t (some row) h = ground arith

  at-selected :
      (t : Time) (q : Query) (rows : Rows D)
      → at t (selected q rows) ≡ returned q t (get ℕ_discrete t rows)
  unfolding selected candle get
  at-selected t q [] = refl
  at-selected t q ((t', row) ∷ rows) = elim (ℕ_discrete t' t) [
    | yes e ↦ ground (arith, at-selected t q rows, returned_outside q t (get ℕ_discrete t rows))
    | no n ↦ ground (arith, at-selected t q rows)
  ]

  selected-Ascending :
      (q : Query) (rows : Rows D) → Unique rows → Ascending (sort_by_time (selected q rows))
  unfolding selected sort_by_time candle
  selected-Ascending q [] u = tt
  selected-Ascending q ((t, row) ∷ rows) u = elim (Bool-cases (in_range q t)) [
    | inl kept ↦ rw kept (
        insert-Ascending (stored q.series t row) (sort_by_time (selected q rows))
          (at-sort t (selected q rows)
            ∙ at-selected t q rows
            ∙ rw (get_of_Fresh ℕ_discrete t rows u.0))
          (selected-Ascending q rows u.1))
    | inr dropped ↦ rw dropped (selected-Ascending q rows u.1)
  ]

  -- If the rows of every series start at distinct times, the rows of a successful `GetRange` are in
  -- strictly ascending order of their starts, and the row at a start is what the repository holds
  -- there for the series if the start lies in the range, and no row otherwise.
  pub get_range-rows :
      (ctx : Context) (q : Query) (r : Repository D) (xs : List (Stored D))
      → Tidy r.series
      → get_range ctx q r ≡ ok xs
      → Ascending xs × ((t : Time) → at t xs ≡ returned q t (find q.series t r.series))
  unfolding get_range
  get_range-rows ctx q r xs tidy h =
      let (u1, alive, h1) = >>=-eq-ok (check ctx 0) _ h in
      let (c, series, h2) = >>=-eq-ok (series_calendar q.series) _ h1 in
      let (u2, ordered, h3) = >>=-eq-ok (guard (not (after q.from q.to)) invalid_range) _ h2 in
      let (u3, first, h4) =
        >>=-eq-ok (wrapped (both invalid_range) (validate_boundary c q.from)) _ h3 in
      let (u4, last, h5) =
        >>=-eq-ok (wrapped (both invalid_range) (validate_boundary c q.to)) _ h4 in
      let (u5, still, h6) = >>=-eq-ok (check ctx 1) _ h5 in
      let (found, loaded, h7) =
        >>=-eq-ok (select ctx 2 q (rows_of q.series r.series)) (λ ys. ok (sort_by_time ys)) h6 in
      let e : sort_by_time found ≡ xs = cc in
      let same = select-selected ctx 2 q (rows_of q.series r.series) found loaded in
      subst (λ ys. Ascending ys × ((t : Time) → at t ys ≡ returned q t (find q.series t r.series)))
        e
        (subst
          (λ ys.
            Ascending (sort_by_time ys)
            × ((t : Time) → at t (sort_by_time ys) ≡ returned q t (find q.series t r.series)))
          same
          (
            selected-Ascending q (rows_of q.series r.series) (tidy q.series),
            λ t. at-sort t _ ∙ at-selected t q (rows_of q.series r.series),
          ))
