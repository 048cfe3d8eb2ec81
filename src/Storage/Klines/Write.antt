-- ===== src/Storage/Klines/Write.antt =====
-- `UpsertMany` as a whole: what a call leaves behind, on success and on failure.
use market_data.Prelude.{
  ℕ, suc, ◌≡◌, refl, sym, ◌∙◌, ap, subst, ◌<◌, arith, Bool, true, false, Option, none, some, List,
  [], ◌∷◌, if◌then◌else◌, is_some, length, ◌⊎◌, inl, inr, ℕ_discrete,
}
use mathlib.Core.Path.{ap₂}
use market_data.Prelude.Map.{get, get-nil}
use market_data.Errors.{Error, Result, ok, err, ◌>>◌, >>=-eq-ok, Result-cases}
use market_data.Domain.Time.{Time, before}
use market_data.Application.Context.{Context, check}
use market_data.Application.Series.{Series, Stored, Series-discrete}
use market_data.Storage.Klines.{
  Rows, Repository, CandleScope-discrete, StoredCandle, candle_scope, time_at, rows_at, is_final,
}
use market_data.Storage.Klines.Upsert.{
  Staged, stage, stage_batch, upsert_many, nothing_staged, apply, finish,
}
use market_data.Storage.Klines.Evidence.{merged, replaces_candle_final}
use market_data.Storage.Klines.Merge.{find, Tidy}
use market_data.Storage.Klines.Commit.{commit-find, committed}
use market_data.Storage.Klines.Staging.{batch_at, touches, stage-find, stage-IsStaged, IsStaged}
use market_data.Storage.Klines.Touched.{stage-touches}

module _ {D : Type 0} where
  pub nothing-IsStaged : IsStaged {D = D} nothing_staged
  nothing-IsStaged = record {
    unique_series = tt;
    unique_rows = λ s. rw (get-nil {V = Rows D} Series-discrete s) tt;
    unique_cutoffs = tt;
  }

  -- An `UpsertMany` that returns an error leaves the repository as it was.
  pub upsert_many_failed :
      (ctx : Context) (now : Time) (rows : List (Stored D)) (r : Repository D) (e : Error)
      → (upsert_many ctx now rows r).1 ≡ err e
      → (upsert_many ctx now rows r).0 ≡ r
  unfolding upsert_many
  upsert_many_failed ctx now [] r e h = refl
  upsert_many_failed ctx now (row ∷ rows) r e h = ground arith

  finish-ok :
      (m : Result (Staged D)) (r : Repository D)
      → (finish m r).1 ≡ ok tt
      → (g : Staged D) × (m ≡ ok g) × ((finish m r).0 ≡ apply g r)
  finish-ok (ok g) r h = (g, refl, refl)
  finish-ok (err e) r h = cc

  pub stage_batch-ok :
      (ctx : Context) (history : ℕ) (now : Time) (rows : List (Stored D)) (g : Staged D)
      → stage_batch ctx history now rows ≡ ok g
      → stage ctx 1 history now rows nothing_staged ≡ ok g
  unfolding stage_batch
  stage_batch-ok ctx history now rows g h =
      let (alive, checked, h1) = >>=-eq-ok (check ctx 0) _ h in
      let (g1, staged, h2) =
        >>=-eq-ok (stage ctx 1 history now rows nothing_staged)
          (λ g1. check ctx (suc (length rows)) >> ok g1) h1 in
      let (still, last, h3) = >>=-eq-ok (check ctx (suc (length rows))) (λ _. ok g1) h2 in
      let e : g1 ≡ g = cc in staged ∙ ap ok e

  -- A successful call wrote a staged batch.
  pub upsert_many-staged :
      (ctx : Context) (now : Time) (row : Stored D) (rows : List (Stored D)) (r : Repository D)
      → (upsert_many ctx now (row ∷ rows) r).1 ≡ ok tt
      → (g : Staged D) × (stage ctx 1 r.history_candles now (row ∷ rows) nothing_staged ≡ ok g)
        × ((upsert_many ctx now (row ∷ rows) r).0 ≡ apply g r)
  unfolding upsert_many
  upsert_many-staged ctx now row rows r h =
      let (g, staged, e) = finish-ok (stage_batch ctx r.history_candles now (row ∷ rows)) r h in
      (g, stage_batch-ok ctx r.history_candles now (row ∷ rows) g staged, e)

  -- A slot after a write: its series is in the batch or not, the slot lies below the cutoff or not,
  -- the batch has a row for it or not, and the row replaces what is stored or not.
  abbrev pub written :
      Bool
      → Time
      → Time
      → Option (StoredCandle D)
      → Option (StoredCandle D)
      → Option (StoredCandle D)
  written false cutoff t incoming old = old
  written true cutoff t incoming old = if before t cutoff then none else merged incoming old

  committed-written :
      (cutoff t : Time) (o : Option (Rows D)) (old : Option (StoredCandle D))
      → committed cutoff t o old ≡ written (is_some o) cutoff t (get ℕ_discrete t (rows_at o)) old
  committed-written cutoff t none old = refl
  committed-written cutoff t (some rows) old = refl

  apply-find :
      (ctx : Context) (now : Time) (rows : List (Stored D)) (r : Repository D) (g : Staged D)
      (s : Series) (t : Time)
      → Tidy r.series
      → stage ctx 1 r.history_candles now rows nothing_staged ≡ ok g
      → find s t (apply g r).series
        ≡ written
            (touches s rows)
            (time_at (get CandleScope-discrete (candle_scope s) (apply g r).cutoffs))
            t
            (batch_at s t rows)
            (find s t r.series)
  apply-find ctx now rows r g s t tidy staged =
      let v =
        stage-IsStaged ctx 1 r.history_candles now rows nothing_staged g staged nothing-IsStaged in
      let cutoff = time_at (get CandleScope-discrete (candle_scope s) (apply g r).cutoffs) in
      commit-find (apply g r).cutoffs s t g.pending r.series v.unique_series v.unique_rows tidy
      ∙ committed-written cutoff t (get Series-discrete s g.pending) (find s t r.series)
      ∙ ap₂ (λ b o. written b cutoff t o (find s t r.series))
          (stage-touches ctx 1 r.history_candles now rows nothing_staged g s staged
            ∙ rw (get-nil {V = Rows D} Series-discrete s))
          (stage-find ctx 1 r.history_candles now rows nothing_staged g s t staged
            ∙ rw
                (get-nil {V = Rows D} Series-discrete s, get-nil {V = StoredCandle D} ℕ_discrete t))

  -- If the rows of every series start at distinct times, then a successful `UpsertMany` of a batch
  -- with at least one row leaves in each slot what `written` says, given the cutoff of the slot's
  -- scope after the call, the batch's row for the slot and what the slot held.
  pub upsert_many-find :
      (ctx : Context) (now : Time) (row : Stored D) (rows : List (Stored D)) (r : Repository D)
      (s : Series) (t : Time)
      → Tidy r.series
      → (upsert_many ctx now (row ∷ rows) r).1 ≡ ok tt
      → let r' = (upsert_many ctx now (row ∷ rows) r).0 in
        find s t r'.series
        ≡ written
            (touches s (row ∷ rows))
            (time_at (get CandleScope-discrete (candle_scope s) r'.cutoffs))
            t
            (batch_at s t (row ∷ rows))
            (find s t r.series)
  upsert_many-find ctx now row rows r s t tidy h =
      let (g, staged, e) = upsert_many-staged ctx now row rows r h in
      rw e (apply-find ctx now (row ∷ rows) r g s t tidy staged)

  written_final :
      (b : Bool) (cutoff t : Time) (incoming : Option (StoredCandle D)) (c : StoredCandle D)
      → is_final c ≡ true
      → (written b cutoff t incoming (some c) ≡ some c)
        ⊎ ((written b cutoff t incoming (some c) ≡ none) × (t < cutoff))
  written_final false cutoff t incoming c f = inl refl
  written_final true cutoff t none c f = ground arith
  written_final true cutoff t (some row) c f = ground (arith, replaces_candle_final c row)

  -- If the rows of every series start at distinct times, a final candle stays as it is through
  -- every call of `UpsertMany`, failed or not, or its slot is empty and lies below the cutoff of
  -- its scope after the call.
  pub upsert_many_final :
      (ctx : Context) (now : Time) (rows : List (Stored D)) (r : Repository D) (s : Series)
      (t : Time) (c : StoredCandle D)
      → Tidy r.series
      → find s t r.series ≡ some c
      → is_final c ≡ true
      → let r' = (upsert_many ctx now rows r).0 in
        (find s t r'.series ≡ some c)
        ⊎ ((find s t r'.series ≡ none)
            × (t < time_at (get CandleScope-discrete (candle_scope s) r'.cutoffs)))
  unfolding upsert_many
  upsert_many_final ctx now [] r s t c tidy h f = inl h
  upsert_many_final ctx now (row ∷ rows) r s t c tidy h f =
      let m = upsert_many ctx now (row ∷ rows) r in
      elim (Result-cases m.1) [
        | inl done ↦
            let e = upsert_many-find ctx now row rows r s t tidy done in
            let cutoff = time_at (get CandleScope-discrete (candle_scope s) m.0.cutoffs) in
            subst (λ o. (o ≡ some c) ⊎ ((o ≡ none) × (t < cutoff))) (sym e)
              (rw h
                (written_final (touches s (row ∷ rows)) cutoff t (batch_at s t (row ∷ rows)) c f))
        | inr (x, failed) ↦
            inl
              (ap (λ z. find s t z.series) (upsert_many_failed ctx now (row ∷ rows) r x failed) ∙ h)
      ]
