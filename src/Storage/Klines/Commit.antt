-- ===== src/Storage/Klines/Commit.antt =====
-- The write of a staged batch (kline.go, `UpsertMany`) against the abstract rows.
use market_data.Prelude.{
  ◌≡◌, refl, ◌∙◌, ap, subst, arith, not, Option, none, some, [], ◌∷◌, if◌then◌else◌, ℕ_discrete,
}
use market_data.Prelude.Map.{
  Map, get, put, get-nil, get-cons_self, get-cons_ne, Unique, Fresh, guarded, get-keep, keep-Unique,
  put-Unique, get_of_Fresh,
}
use market_data.Domain.Time.{Time, before}
use market_data.Application.Series.{Series, Series-discrete}
use market_data.Storage.Klines.{
  Rows, Table, CandleScope, CandleScope-discrete, StoredCandle, rows_at, time_at, candle_scope,
  prune,
}
use market_data.Storage.Klines.Upsert.{merge_row, merge_rows, commit}
use market_data.Storage.Klines.Evidence.{merged}
use market_data.Storage.Klines.Merge.{
  rows_of, find, Tidy, merged_from, rows_of-prune_self, rows_of-prune_ne, rows_of-put_self,
  merge_row_other_series, merge_rows_self, merge_rows_other_series,
}

module _ {D : Type 0} where
  pub prune-Tidy : (s : Series) (cutoff : Time) (m : Table D) → Tidy m → Tidy (prune s cutoff m)
  prune-Tidy s cutoff m h s' = elim (Series-discrete s s') [
    | yes e ↦
        subst (λ x. Unique (rows_of x (prune s cutoff m))) e
          (rw (rows_of-prune_self s cutoff m) (keep-Unique _ (rows_of s m) (h s)))
    | no n ↦ rw (rows_of-prune_ne s s' cutoff m n) (h s')
  ]

  merge_row-Tidy :
      (cutoff : Time) (s : Series) (t : Time) (row : StoredCandle D) (m : Table D)
      → Tidy m
      → Tidy (merge_row cutoff s t row m)
  unfolding merge_row
  merge_row-Tidy cutoff s t row m h s' = elim (Series-discrete s s') [
    | yes e ↦
        subst (λ x. Unique (rows_of x (merge_row cutoff s t row m))) e
          (ground (
            arith,
            h s,
            put-Unique ℕ_discrete t row (rows_of s m) (h s),
            rows_of-put_self s (put ℕ_discrete t row (rows_of s m)) m,
          ))
    | no n ↦ rw (merge_row_other_series cutoff s s' t row m n) (h s')
  ]

  merge_rows-Tidy :
      (cutoff : Time) (s : Series) (rows : Rows D) (m : Table D)
      → Tidy m
      → Tidy (merge_rows cutoff s rows m)
  unfolding merge_rows
  merge_rows-Tidy cutoff s [] m h = h
  merge_rows-Tidy cutoff s ((t, row) ∷ rows) m h =
      merge_rows-Tidy cutoff s rows (merge_row cutoff s t row m) (merge_row-Tidy cutoff s t row m h)

  -- Every write keeps the rows of every series unique.
  pub commit-Tidy :
      (cutoffs : Map CandleScope Time) (pending m : Table D)
      → Tidy m
      → Tidy (commit cutoffs pending m)
  unfolding commit
  commit-Tidy cutoffs [] m h = h
  commit-Tidy cutoffs ((s, rows) ∷ rest) m h =
      let cutoff = time_at (get CandleScope-discrete (candle_scope s) cutoffs) in
      commit-Tidy cutoffs rest (merge_rows cutoff s rows (prune s cutoff m))
        (merge_rows-Tidy cutoff s rows (prune s cutoff m) (prune-Tidy s cutoff m h))

  commit_other :
      (cutoffs : Map CandleScope Time) (s : Series) (pending m : Table D)
      → Fresh s pending
      → rows_of s (commit cutoffs pending m) ≡ rows_of s m
  unfolding commit
  commit_other cutoffs s [] m h = refl
  commit_other cutoffs s ((j, rows) ∷ rest) m h =
      let cutoff = time_at (get CandleScope-discrete (candle_scope j) cutoffs) in
      commit_other cutoffs s rest (merge_rows cutoff j rows (prune j cutoff m)) h.1
      ∙ merge_rows_other_series cutoff j s rows (prune j cutoff m) h.0
      ∙ rows_of-prune_ne j s cutoff m h.0

  -- A slot of a series in the batch: empty below the cutoff, else merged. Other series are
  -- untouched.
  abbrev pub committed :
      Time → Time → Option (Rows D) → Option (StoredCandle D) → Option (StoredCandle D)
  committed cutoff t none old = old
  committed cutoff t (some rows) old =
      if before t cutoff then none else merged (get ℕ_discrete t rows) old

  pruned_merge :
      (cutoff : Time) (s : Series) (t : Time) (rows : Rows D) (m : Table D)
      → Unique rows
      → Tidy m
      → find s t (merge_rows cutoff s rows (prune s cutoff m))
        ≡ committed cutoff t (some rows) (find s t m)
  pruned_merge cutoff s t rows m u h =
      rw
        (
          merge_rows_self cutoff s t rows (prune s cutoff m) u,
          rows_of-prune_self s cutoff m,
          get-keep ℕ_discrete (λ start _. not (before start cutoff)) t (rows_of s m) (h s),
        )
        (cut (find s t m))
    where
      cut :
          (old : Option (StoredCandle D))
          → merged_from cutoff t (get ℕ_discrete t rows) (guarded (λ _. not (before t cutoff)) old)
            ≡ committed cutoff t (some rows) old
      cut none = ground (arith)
      cut (some old) = ground arith

  head_Unique :
      (s : Series) (rows : Rows D) (rest : Table D) → Tidy ((s, rows) ∷ rest) → Unique rows
  head_Unique s rows rest p =
      subst (λ o. Unique (rows_at o)) (get-cons_self Series-discrete s rows rest) (p s)

  tail_Tidy :
      (j : Series) (rows : Rows D) (rest : Table D)
      → Fresh j rest
      → Tidy ((j, rows) ∷ rest)
      → Tidy rest
  tail_Tidy j rows rest fresh p s = elim (Series-discrete j s) [
    | yes e ↦
        subst (λ x. Unique (rows_of x rest)) e (rw (get_of_Fresh Series-discrete j rest fresh) tt)
    | no n ↦ subst (λ o. Unique (rows_at o)) (get-cons_ne Series-discrete j s rows rest n) (p s)
  ]

  pub commit-find :
      (cutoffs : Map CandleScope Time) (s : Series) (t : Time) (pending m : Table D)
      → Unique pending
      → Tidy pending
      → Tidy m
      → find s t (commit cutoffs pending m)
        ≡ committed
            (time_at (get CandleScope-discrete (candle_scope s) cutoffs))
            t
            (get Series-discrete s pending)
            (find s t m)
  unfolding commit
  commit-find cutoffs s t [] m u p h = rw (get-nil {V = Rows D} Series-discrete s)
  commit-find cutoffs s t ((j, rows) ∷ rest) m u p h =
      let cutoff = time_at (get CandleScope-discrete (candle_scope j) cutoffs) in
      let m' = merge_rows cutoff j rows (prune j cutoff m) in
      let h' = merge_rows-Tidy cutoff j rows (prune j cutoff m) (prune-Tidy j cutoff m h) in
      elim (Series-discrete j s) [
        | yes e ↦
            subst
              (λ x.
                find x t (commit cutoffs rest m')
                ≡ committed (time_at (get CandleScope-discrete (candle_scope x) cutoffs)) t
                    (get Series-discrete x ((j, rows) ∷ rest)) (find x t m))
              e
              (ap (get ℕ_discrete t) (commit_other cutoffs j rest m' u.0)
                ∙ rw (get-cons_self Series-discrete j rows rest)
                    (pruned_merge cutoff j t rows m (head_Unique j rows rest p) h))
        | no n ↦
            commit-find cutoffs s t rest m' u.1 (tail_Tidy j rows rest u.0 p) h'
            ∙ rw (
              get-cons_ne Series-discrete j s rows rest n,
              merge_rows_other_series cutoff j s rows (prune j cutoff m) n,
              rows_of-prune_ne j s cutoff m n,
            )
      ]
