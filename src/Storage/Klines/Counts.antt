-- ===== src/Storage/Klines/Counts.antt =====
-- `CandleCounts` of internal/infrastructure/storage/memory/kline.go.
use market_data.Prelude.{
  ℕ, suc, ◌+◌, ◌≡◌, refl, subst, ◌∙◌, arith, [], ◌∷◌, ite, if_pos, if_neg, length,
}
use market_data.Prelude.Map.{Map, get, get-nil, put, get-put_self, get-put_ne}
use market_data.Errors.{ok, >>=-eq-ok}
use market_data.Application.Context.{Context, check}
use market_data.Application.Series.{Scope, Scope-discrete}
use market_data.Storage.Klines.{Table, Repository}
use market_data.Storage.Klines.Read.{count_at, count_series, candle_counts}

-- The count of a scope after n rows of the scope j were added.
counted : Scope → Scope → ℕ → Map Scope ℕ → ℕ
counted j scope n counts = count_at (
    get Scope-discrete scope
      (put Scope-discrete j (count_at (get Scope-discrete j counts) + n) counts))

counted_lem :
    (j scope : Scope) (n : ℕ) (counts : Map Scope ℕ)
    → counted j scope n counts
      ≡ count_at (get Scope-discrete scope counts) + ite (Scope-discrete j scope) n 0
unfolding counted
counted_lem j scope n counts = elim (Scope-discrete j scope) [
  | yes e ↦ rw (if_pos (Scope-discrete j scope) e n 0) (
      subst (λ x. counted j x n counts ≡ count_at (get Scope-discrete x counts) + n) e
        (rw
          (
            counted,
            get-put_self Scope-discrete j (count_at (get Scope-discrete j counts) + n) counts,
          )
          refl))
  | no ne ↦
      rw
        (
          if_neg (Scope-discrete j scope) ne n 0,
          counted,
          get-put_ne Scope-discrete j scope (count_at (get Scope-discrete j counts) + n) counts ne,
        )
        (omega arith)
]

module _ {D : Type 0} where
  -- The rows of every series of a scope, added up.
  unfoldable pub total : Scope → Table D → ℕ
  total scope [] = 0
  total scope ((s, rows) ∷ m) = ite (Scope-discrete s.scope scope) (length rows) 0 + total scope m

  count_series-total :
      (ctx : Context) (n : ℕ) (m : Table D) (counts found : Map Scope ℕ) (scope : Scope)
      → count_series ctx n m counts ≡ ok found
      → count_at (get Scope-discrete scope found)
        ≡ count_at (get Scope-discrete scope counts) + total scope m
  unfolding count_series total counted
  count_series-total ctx n [] counts found scope h = ground arith
  count_series-total ctx n ((s, rows) ∷ m) counts found scope h =
      let (alive, checked, h1) = >>=-eq-ok (check ctx n) _ h in
      omega (
        arith,
        count_series-total ctx (suc n) m _ found scope h1,
        counted_lem s.scope scope (length rows) counts,
      )

  -- A successful `CandleCounts` gives each scope the number of rows of all its series.
  pub candle_counts-total :
      (ctx : Context) (r : Repository D) (counts : Map Scope ℕ) (scope : Scope)
      → candle_counts ctx r ≡ ok counts
      → count_at (get Scope-discrete scope counts) ≡ total scope r.series
  unfolding candle_counts
  candle_counts-total ctx r counts scope h =
      let (alive, checked, h1) = >>=-eq-ok (check ctx 0) _ h in
      count_series-total ctx 1 r.series [] counts scope h1
      ∙ rw (get-nil {V = ℕ} Scope-discrete scope) (omega arith)
