-- ===== src/Storage/Klines/Staging.antt =====
-- The loop of kline.go that stages a batch (`UpsertMany`), told from the batch alone.
use market_data.Prelude.{
  ℕ, suc, ◌≡◌, refl, sym, ◌∙◌, subst, arith, Bool, true, false, Option, none, some, List, [], ◌∷◌,
  ite, if_pos, if_neg, is_some, Bool-cases, ◌⊎◌, inl, inr, ℕ_discrete,
}
use market_data.Prelude.Map.{Map, get, put, get-put_self, get-put_ne, Unique, put-Unique}
use market_data.Prelude.Int.{pos}
use market_data.Errors.{ok, >>=-eq-ok}
use market_data.Domain.Time.{Time}
use market_data.Domain.Timeframe.{Calendar, history_cutoff}
use market_data.Application.Context.{Context, check}
use market_data.Application.Series.{Series, Stored, Series-discrete}
use market_data.Storage.Klines.{
  Table, CandleScope, CandleScope-discrete, StoredCandle, candle_scope, stored_candle,
}
use market_data.Storage.Klines.Upsert.{
  Staged, series_of, validate_row, stage_cutoff, stage_row, stage,
}
use market_data.Storage.Klines.Merge.{rows_of, find, Tidy, rows_of-put_self, rows_of-put_ne}

-- The cutoff of a scope is the one staged before, or the history cutoff of its calendar.
pub stage_cutoff-ok :
    (history : ℕ) (now : Time) (c : Calendar) (scope : CandleScope)
    (cutoffs cutoffs' : Map CandleScope Time)
    → stage_cutoff history now c scope cutoffs ≡ ok cutoffs'
    → (cutoffs' ≡ cutoffs)
      ⊎ ((t : Time) × (history_cutoff c now (pos history) ≡ ok t)
          × (cutoffs' ≡ put CandleScope-discrete scope t cutoffs))
unfolding stage_cutoff
stage_cutoff-ok history now c scope cutoffs cutoffs' h =
    elim (Bool-cases (is_some (get CandleScope-discrete scope cutoffs))) [
      | inl old ↦ inl (ground arith)
      | inr new ↦
          let (t, computed, h1) =
            >>=-eq-ok (history_cutoff c now (pos history))
              (λ t. ok (put CandleScope-discrete scope t cutoffs)) (rw (new, stage_cutoff) at h) in
          inr (t, computed, ground arith)
    ]

stage_cutoff-Unique :
    (history : ℕ) (now : Time) (c : Calendar) (scope : CandleScope)
    (cutoffs cutoffs' : Map CandleScope Time)
    → stage_cutoff history now c scope cutoffs ≡ ok cutoffs'
    → Unique cutoffs
    → Unique cutoffs'
stage_cutoff-Unique history now c scope cutoffs cutoffs' h u =
    elim (stage_cutoff-ok history now c scope cutoffs cutoffs' h) [
      | inl same ↦ subst (λ m. Unique m) (sym same) u
      | inr (t, computed, e) ↦
          subst (λ m. Unique m) (sym e) (put-Unique CandleScope-discrete scope t cutoffs u)
    ]

module _ {D : Type 0} where
  -- The row of the batch for a slot.
  unfoldable pub batch_at : Series → Time → List (Stored D) → Option (StoredCandle D)
  batch_at s t [] = none
  batch_at s t (row ∷ rows) =
      ite (Series-discrete (series_of row) s)
        (ite (ℕ_discrete row.candle.open_time t) (some (stored_candle row)) (batch_at s t rows))
        (batch_at s t rows)

  -- Does the batch have a row of the series?
  unfoldable pub touches : Series → List (Stored D) → Bool
  touches s [] = false
  touches s (row ∷ rows) = ite (Series-discrete (series_of row) s) true (touches s rows)

  pub record IsStaged (g : Staged D) : Type 0 where
    pub unique_series : Unique g.pending
    pub unique_rows : Tidy g.pending
    pub unique_cutoffs : Unique g.cutoffs

  pub stage_row-ok :
      (history : ℕ) (now : Time) (row : Stored D) (g g' : Staged D)
      → stage_row history now row g ≡ ok g'
      → (c : Calendar) × (validate_row now row ≡ ok c)
        × (stage_cutoff history now c (candle_scope (series_of row)) g.cutoffs ≡ ok g'.cutoffs)
        × (find (series_of row) row.candle.open_time g.pending ≡ none)
        × (g'.pending
            ≡ put Series-discrete
                (series_of row)
                (put ℕ_discrete row.candle.open_time
                  (stored_candle row)
                  (rows_of (series_of row) g.pending))
                g.pending)
  unfolding stage_row
  stage_row-ok history now row g g' h =
      let (c, valid, h1) = >>=-eq-ok (validate_row now row) _ h in
      let (cutoffs, staged, h2) =
        >>=-eq-ok (stage_cutoff history now c (candle_scope (series_of row)) g.cutoffs) _ h1 in
      (c, valid, ground arith, ground arith, ground arith)

  add_row-IsStaged :
      (s : Series) (t : Time) (row : StoredCandle D) (g g' : Staged D)
      → Unique g'.cutoffs
      → g'.pending ≡ put Series-discrete s (put ℕ_discrete t row (rows_of s g.pending)) g.pending
      → IsStaged g
      → IsStaged g'
  add_row-IsStaged s t row g g' u e v = record {
    unique_series = rw e (
        put-Unique Series-discrete s (put ℕ_discrete t row (rows_of s g.pending)) g.pending
          v.unique_series);
    unique_rows = λ s'. rw e (elim (Series-discrete s s') [
      | yes same ↦
          subst
            (λ x. Unique (
              rows_of x
                (put Series-discrete s (put ℕ_discrete t row (rows_of s g.pending)) g.pending)))
            same
            (rw (rows_of-put_self s (put ℕ_discrete t row (rows_of s g.pending)) g.pending)
              (put-Unique ℕ_discrete t row (rows_of s g.pending) (v.unique_rows s)))
      | no other ↦
          rw (rows_of-put_ne s s' (put ℕ_discrete t row (rows_of s g.pending)) g.pending other)
            (v.unique_rows s')
    ]);
    unique_cutoffs = u;
  }

  -- What the staged rows hold in a slot: an earlier row of the batch, or a later one.
  abbrev first : Option (StoredCandle D) → Option (StoredCandle D) → Option (StoredCandle D)
  first none later = later
  first (some row) later = some row

  first-none : (o : Option (StoredCandle D)) → first o none ≡ o
  first-none none = refl
  first-none (some row) = refl

  -- `find` after a row is put into a free slot.
  find-put_same :
      (s : Series) (t t' : Time) (row : StoredCandle D) (m : Table D)
      → find s t m ≡ none
      → find s t' (put Series-discrete s (put ℕ_discrete t row (rows_of s m)) m)
        ≡ first (find s t' m) (ite (ℕ_discrete t t') (some row) none)
  find-put_same s t t' row m free = elim (ℕ_discrete t t') [
    | yes at ↦
        rw (rows_of-put_self s (put ℕ_discrete t row (rows_of s m)) m, if_pos _ at)
          (subst
            (λ x.
              get ℕ_discrete x (put ℕ_discrete t row (rows_of s m)) ≡ first (find s x m) (some row))
            at (rw (get-put_self ℕ_discrete t row (rows_of s m), free)))
    | no other ↦
        rw
          (
            rows_of-put_self s (put ℕ_discrete t row (rows_of s m)) m,
            if_neg _ other,
            get-put_ne ℕ_discrete t t' row (rows_of s m) other,
          )
          (sym (first-none (find s t' m)))
  ]

  find-put :
      (s s' : Series) (t t' : Time) (row : StoredCandle D) (m : Table D)
      → find s t m ≡ none
      → find s' t' (put Series-discrete s (put ℕ_discrete t row (rows_of s m)) m)
        ≡ first
            (find s' t' m)
            (ite (Series-discrete s s') (ite (ℕ_discrete t t') (some row) none) none)
  find-put s s' t t' row m free = elim (Series-discrete s s') [
    | yes same ↦ rw (if_pos _ same) (
        subst
          (λ x.
            find x t' (put Series-discrete s (put ℕ_discrete t row (rows_of s m)) m)
            ≡ first (find x t' m) (ite (ℕ_discrete t t') (some row) none))
          same (find-put_same s t t' row m free))
    | no other ↦
        rw (rows_of-put_ne s s' (put ℕ_discrete t row (rows_of s m)) m other, if_neg _ other)
          (sym (first-none (find s' t' m)))
  ]

  stage_row-IsStaged :
      (history : ℕ) (now : Time) (row : Stored D) (g g' : Staged D)
      → stage_row history now row g ≡ ok g'
      → IsStaged g
      → IsStaged g'
  stage_row-IsStaged history now row g g' h v =
      let (c, valid, cutoffs, free, e) = stage_row-ok history now row g g' h in
      add_row-IsStaged (series_of row) row.candle.open_time (stored_candle row) g g'
        (stage_cutoff-Unique history now c (candle_scope (series_of row)) g.cutoffs g'.cutoffs
          cutoffs v.unique_cutoffs)
        e v

  stage_row-find :
      (history : ℕ) (now : Time) (row : Stored D) (g g' : Staged D) (s : Series) (t : Time)
      → stage_row history now row g ≡ ok g'
      → find s t g'.pending
        ≡ first (find s t g.pending) (
            ite
              (Series-discrete (series_of row) s)
              (ite (ℕ_discrete row.candle.open_time t) (some (stored_candle row)) none)
              none)
  stage_row-find history now row g g' s t h =
      let (c, valid, cutoffs, free, e) = stage_row-ok history now row g g' h in
      rw e (find-put (series_of row) s row.candle.open_time t (stored_candle row) g.pending free)

  first_nil : (o : Option (StoredCandle D)) (s : Series) (t : Time) → o ≡ first o (batch_at s t [])
  unfolding batch_at
  first_nil o s t = sym (first-none o)

  first_assoc :
      (a : Option (StoredCandle D)) (row : Stored D) (rows : List (Stored D)) (s : Series)
      (t : Time)
      → first
          (first a (
            ite
              (Series-discrete (series_of row) s)
              (ite (ℕ_discrete row.candle.open_time t) (some (stored_candle row)) none)
              none))
          (batch_at s t rows)
        ≡ first a (batch_at s t (row ∷ rows))
  unfolding batch_at
  first_assoc none row rows s t = ground arith
  first_assoc (some r) row rows s t = refl

  pub stage-IsStaged :
      (ctx : Context) (n history : ℕ) (now : Time) (rows : List (Stored D)) (g g' : Staged D)
      → stage ctx n history now rows g ≡ ok g'
      → IsStaged g
      → IsStaged g'
  unfolding stage
  stage-IsStaged ctx n history now [] g g' h v = let e : g ≡ g' = cc in subst IsStaged e v
  stage-IsStaged ctx n history now (row ∷ rows) g g' h v =
      let (alive, checked, h1) = >>=-eq-ok (check ctx n) _ h in
      let (g1, staged, h2) =
        >>=-eq-ok (stage_row history now row g) (λ g1. stage ctx (suc n) history now rows g1) h1 in
      stage-IsStaged ctx (suc n) history now rows g1 g' h2
        (stage_row-IsStaged history now row g g1 staged v)

  -- The staged rows are those of the batch.
  pub stage-find :
      (ctx : Context) (n history : ℕ) (now : Time) (rows : List (Stored D)) (g g' : Staged D)
      (s : Series) (t : Time)
      → stage ctx n history now rows g ≡ ok g'
      → find s t g'.pending ≡ first (find s t g.pending) (batch_at s t rows)
  unfolding stage
  stage-find ctx n history now [] g g' s t h =
      let e : g ≡ g' = cc in
      subst (λ x. find s t x.pending ≡ first (find s t g.pending) (batch_at s t [])) e
        (first_nil (find s t g.pending) s t)
  stage-find ctx n history now (row ∷ rows) g g' s t h =
      let (alive, checked, h1) = >>=-eq-ok (check ctx n) _ h in
      let (g1, staged, h2) =
        >>=-eq-ok (stage_row history now row g) (λ g1. stage ctx (suc n) history now rows g1) h1 in
      stage-find ctx (suc n) history now rows g1 g' s t h2
      ∙ rw (stage_row-find history now row g g1 s t staged)
          (first_assoc (find s t g.pending) row rows s t)
