-- ===== src/Storage/Klines/Merge.antt =====
-- What a slot holds after `prune` and after the merge of a batch.
use market_data.Prelude.{
  ◌≡◌, refl, ◌∙◌, ap, subst, ◌≢◌, arith, not, Option, some, [], ◌∷◌, if◌then◌else◌, ℕ_discrete,
}
use market_data.Prelude.Map.{
  get-nil, get-cons_self, get-cons_ne, get, put, delete, keep, Unique, Fresh, get-put_self,
  get-put_ne, get-delete_self, get-delete_ne, get_of_Fresh,
}
use market_data.Domain.Time.{Time, before}
use market_data.Application.Series.{Series, Series-discrete}
use market_data.Storage.Klines.{Rows, Table, StoredCandle, rows_at, no_rows, prune}
use market_data.Storage.Klines.Upsert.{merge_row, merge_rows}
use market_data.Storage.Klines.Evidence.{merged}

module _ {D : Type 0} where
  abbrev pub rows_of : Series → Table D → Rows D
  rows_of s m = rows_at (get Series-discrete s m)

  -- The candle of a series that starts at a time.
  abbrev pub find : Series → Time → Table D → Option (StoredCandle D)
  find s t m = get ℕ_discrete t (rows_of s m)

  -- No two rows of a series start at one time.
  abbrev pub Tidy : Table D → Type 0
  Tidy m = (s : Series) → Unique (rows_of s m)

  pub rows_of-put_self :
      (s : Series) (rows : Rows D) (m : Table D) → rows_of s (put Series-discrete s rows m) ≡ rows
  rows_of-put_self s rows m = ap rows_at (get-put_self Series-discrete s rows m)

  pub rows_of-put_ne :
      (s s' : Series) (rows : Rows D) (m : Table D)
      → s ≢ s'
      → rows_of s' (put Series-discrete s rows m) ≡ rows_of s' m
  rows_of-put_ne s s' rows m h = ap rows_at (get-put_ne Series-discrete s s' rows m h)

  abbrev keep_from : Time → Rows D → Rows D
  keep_from cutoff = keep (λ start _. not (before start cutoff))

  pruned_self :
      (s : Series) (kept : Rows D) (m : Table D)
      → rows_of s
          (if no_rows kept then delete Series-discrete s m else put Series-discrete s kept m)
        ≡ kept
  pruned_self s [] m = ap rows_at (get-delete_self Series-discrete s m)
  pruned_self s (x ∷ kept) m = rows_of-put_self s (x ∷ kept) m

  pruned_ne :
      (s s' : Series) (kept : Rows D) (m : Table D)
      → s ≢ s'
      → rows_of s'
          (if no_rows kept then delete Series-discrete s m else put Series-discrete s kept m)
        ≡ rows_of s' m
  pruned_ne s s' [] m h = ap rows_at (get-delete_ne Series-discrete s s' m h)
  pruned_ne s s' (x ∷ kept) m h = rows_of-put_ne s s' (x ∷ kept) m h

  pub rows_of-prune_self :
      (s : Series) (cutoff : Time) (m : Table D)
      → rows_of s (prune s cutoff m) ≡ keep_from cutoff (rows_of s m)
  unfolding prune
  rows_of-prune_self s cutoff m = pruned_self s (keep_from cutoff (rows_of s m)) m

  pub rows_of-prune_ne :
      (s s' : Series) (cutoff : Time) (m : Table D)
      → s ≢ s'
      → rows_of s' (prune s cutoff m) ≡ rows_of s' m
  unfolding prune
  rows_of-prune_ne s s' cutoff m h = pruned_ne s s' (keep_from cutoff (rows_of s m)) m h

  merge_row_self :
      (cutoff : Time) (s : Series) (t : Time) (row : StoredCandle D) (m : Table D)
      → find s t (merge_row cutoff s t row m)
        ≡ (if before t cutoff then find s t m else merged (some row) (find s t m))
  unfolding merge_row
  merge_row_self cutoff s t row m =
      let rows = rows_of s m in
      ground (
        arith,
        rows_of-put_self s (put ℕ_discrete t row rows) m,
        get-put_self ℕ_discrete t row rows,
      )

  merge_row_other_time :
      (cutoff : Time) (s : Series) (t t' : Time) (row : StoredCandle D) (m : Table D)
      → t ≢ t'
      → find s t' (merge_row cutoff s t row m) ≡ find s t' m
  unfolding merge_row
  merge_row_other_time cutoff s t t' row m h =
      let rows = rows_of s m in
      ground (
        arith,
        rows_of-put_self s (put ℕ_discrete t row rows) m,
        get-put_ne ℕ_discrete t t' row rows h,
      )

  pub merge_row_other_series :
      (cutoff : Time) (s s' : Series) (t : Time) (row : StoredCandle D) (m : Table D)
      → s ≢ s'
      → rows_of s' (merge_row cutoff s t row m) ≡ rows_of s' m
  unfolding merge_row
  merge_row_other_series cutoff s s' t row m h =
      ground (arith, rows_of-put_ne s s' (put ℕ_discrete t row (rows_of s m)) m h)

  -- The rows of a batch meet what each slot holds, from the cutoff on.
  abbrev pub merged_from :
      Time → Time → Option (StoredCandle D) → Option (StoredCandle D) → Option (StoredCandle D)
  merged_from cutoff t incoming old = if before t cutoff then old else merged incoming old

  merged_cons_self :
      (cutoff : Time) (s : Series) (t : Time) (row : StoredCandle D) (rows : Rows D) (m : Table D)
      → Fresh t rows
      → merged_from cutoff t (get ℕ_discrete t rows) (find s t (merge_row cutoff s t row m))
        ≡ merged_from cutoff t (get ℕ_discrete t ((t, row) ∷ rows)) (find s t m)
  merged_cons_self cutoff s t row rows m fresh =
      rw
        (
          get_of_Fresh ℕ_discrete t rows fresh,
          get-cons_self ℕ_discrete t row rows,
          merge_row_self cutoff s t row m,
        )
        (ground arith)

  merged_cons :
      (cutoff : Time) (s : Series) (start t : Time) (row : StoredCandle D) (rows : Rows D)
      (m : Table D)
      → Fresh start rows
      → merged_from cutoff t (get ℕ_discrete t rows) (find s t (merge_row cutoff s start row m))
        ≡ merged_from cutoff t (get ℕ_discrete t ((start, row) ∷ rows)) (find s t m)
  merged_cons cutoff s start t row rows m fresh = elim (ℕ_discrete start t) [
    | yes e ↦
        subst
          (λ x.
            merged_from cutoff x (get ℕ_discrete x rows) (find s x (merge_row cutoff s start row m))
            ≡ merged_from cutoff x (get ℕ_discrete x ((start, row) ∷ rows)) (find s x m))
          e (merged_cons_self cutoff s start row rows m fresh)
    | no n ↦
        rw
          (get-cons_ne ℕ_discrete start t row rows n, merge_row_other_time cutoff s start t row m n)
          refl
  ]

  pub merge_rows_self :
      (cutoff : Time) (s : Series) (t : Time) (rows : Rows D) (m : Table D)
      → Unique rows
      → find s t (merge_rows cutoff s rows m)
        ≡ merged_from cutoff t (get ℕ_discrete t rows) (find s t m)
  unfolding merge_rows
  merge_rows_self cutoff s t [] m u = rw (get-nil {V = StoredCandle D} ℕ_discrete t) (ground arith)
  merge_rows_self cutoff s t ((start, row) ∷ rows) m u =
      merge_rows_self cutoff s t rows (merge_row cutoff s start row m) u.1
      ∙ merged_cons cutoff s start t row rows m u.0

  pub merge_rows_other_series :
      (cutoff : Time) (s s' : Series) (rows : Rows D) (m : Table D)
      → s ≢ s'
      → rows_of s' (merge_rows cutoff s rows m) ≡ rows_of s' m
  unfolding merge_rows
  merge_rows_other_series cutoff s s' [] m h = refl
  merge_rows_other_series cutoff s s' ((start, row) ∷ rows) m h =
      merge_rows_other_series cutoff s s' rows (merge_row cutoff s start row m) h
      ∙ merge_row_other_series cutoff s s' start row m h
