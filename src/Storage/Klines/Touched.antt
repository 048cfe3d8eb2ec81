-- ===== src/Storage/Klines/Touched.antt =====
-- Which series and which cutoffs a staged batch has, told from the batch alone.
use market_data.Prelude.{
  ℕ, suc, ◌≡◌, ◌∙◌, ap, subst, arith, Bool, true, false, ◌||◌, List, [], ◌∷◌, ite, if_pos, if_neg,
  is_some, ℕ_discrete,
}
use market_data.Prelude.Map.{get, put, get-put_self, get-put_ne}
use market_data.Errors.{ok, >>=-eq-ok}
use market_data.Domain.Time.{Time}
use market_data.Application.Context.{Context, check}
use market_data.Application.Series.{Series, Stored, Series-discrete}
use market_data.Storage.Klines.{Rows, Table, CandleScope, CandleScope-discrete, stored_candle}
use market_data.Storage.Klines.Upsert.{Staged, series_of, stage_row, stage}
use market_data.Storage.Klines.Merge.{rows_of}
use market_data.Storage.Klines.Staging.{touches, stage_row-ok}

or_true : (b : Bool) → true ≡ (b || true)
or_true b = ground arith

or_false : (b : Bool) → b ≡ (b || false)
or_false b = ground arith

or_ite {ℓ} :
    {A : Type ℓ} (a : Bool) (d : Dec A) (b : Bool)
    → ((a || ite d true false) || b) ≡ (a || ite d true b)
or_ite a (yes p) b = ground arith
or_ite a (no p) b = ground arith

touches-nil : (D : Type 0) (s : Series) (b : Bool) → b ≡ (b || touches {D = D} s [])
unfolding touches
touches-nil D s b = or_false b

module _ {D : Type 0} where
  abbrev pub has_series : Series → Table D → Bool
  has_series s m = is_some (get Series-discrete s m)

  abbrev pub has_cutoff : CandleScope → Staged D → Bool
  has_cutoff k g = is_some (get CandleScope-discrete k g.cutoffs)

  has_series-put :
      (s s' : Series) (rows : Rows D) (m : Table D)
      → has_series s' (put Series-discrete s rows m)
        ≡ (has_series s' m || ite (Series-discrete s s') true false)
  has_series-put s s' rows m = elim (Series-discrete s s') [
    | yes same ↦ rw (if_pos _ same) (
        subst (λ x. has_series x (put Series-discrete s rows m) ≡ (has_series x m || true)) same
          (rw (get-put_self Series-discrete s rows m) (or_true (has_series s m))))
    | no other ↦
        rw (get-put_ne Series-discrete s s' rows m other, if_neg _ other)
          (or_false (has_series s' m))
  ]

  touches-cons :
      (s : Series) (row : Stored D) (rows : List (Stored D)) (b : Bool)
      → ((b || ite (Series-discrete (series_of row) s) true false) || touches s rows)
        ≡ (b || touches s (row ∷ rows))
  unfolding touches
  touches-cons s row rows b = or_ite b (Series-discrete (series_of row) s) (touches s rows)

  -- A series is in the staged rows exactly when the batch has a row of it.
  pub stage-touches :
      (ctx : Context) (n history : ℕ) (now : Time) (rows : List (Stored D)) (g g' : Staged D)
      (s : Series)
      → stage ctx n history now rows g ≡ ok g'
      → has_series s g'.pending ≡ (has_series s g.pending || touches s rows)
  unfolding stage
  stage-touches ctx n history now [] g g' s h =
      let e : g ≡ g' = cc in
      subst (λ x. has_series s x.pending ≡ (has_series s g.pending || touches {D = D} s [])) e
        (touches-nil D s (has_series s g.pending))
  stage-touches ctx n history now (row ∷ rows) g g' s h =
      let (alive, checked, h1) = >>=-eq-ok (check ctx n) _ h in
      let (g1, staged, h2) =
        >>=-eq-ok (stage_row history now row g) (λ g1. stage ctx (suc n) history now rows g1) h1 in
      let (c, valid, cutoffs, free, e) = stage_row-ok history now row g g1 staged in
      stage-touches ctx (suc n) history now rows g1 g' s h2
      ∙ ap (λ m. has_series s m || touches s rows) e
      ∙ ap (λ b. b || touches s rows)
          (has_series-put (series_of row) s
            (put ℕ_discrete row.candle.open_time (stored_candle row)
              (rows_of (series_of row) g.pending))
            g.pending)
      ∙ touches-cons s row rows (has_series s g.pending)
