-- ===== src/Storage/Klines/Forward.antt =====
-- The retention cutoffs of internal/infrastructure/storage/memory/kline.go over time.
use market_data.Prelude.{◌≡◌, refl, subst, ◌≤◌, arith, Option, none, some, List, [], ◌∷◌, inl, inr}
use market_data.Prelude.Map.{Map, get, put, Unique, get-put_self, get-put_ne}
use market_data.Errors.{Result, ok, err, Result-cases}
use market_data.Domain.Names.{Timeframe}
use market_data.Domain.Time.{Time}
use market_data.Application.Context.{Context}
use market_data.Application.Series.{Scope, Stored}
use market_data.Storage.Klines.{CandleScope, CandleScope-discrete, Repository}
use market_data.Storage.Klines.Upsert.{Staged, stage_batch, upsert_many, nothing_staged, finish}
use market_data.Storage.Klines.Read.{later, validated, delete_before}
use market_data.Storage.Klines.Staging.{stage-IsStaged}
use market_data.Storage.Klines.Cutoffs.{raised, raise_cutoffs-get}
use market_data.Storage.Klines.Write.{nothing-IsStaged, stage_batch-ok}

-- A cutoff that was applied stays applied, and moves to no earlier time.
abbrev pub Forward : Option Time → Option Time → Type 0
Forward none new = Unit
Forward (some old) none = ⊥
Forward (some old) (some new) = old ≤ new

Forward-refl : (o : Option Time) → Forward o o
Forward-refl none = tt
Forward-refl (some t) = omega arith

raised-Forward : (staged applied : Option Time) → Forward applied (raised staged applied)
raised-Forward none applied = Forward-refl applied
raised-Forward (some cutoff) none = tt
raised-Forward (some cutoff) (some applied) = omega arith

later-Forward : (t : Time) (applied : Option Time) → Forward applied (some (later t applied))
later-Forward t none = tt
later-Forward t (some applied) = ground arith

put-later :
    (k key : CandleScope) (cutoff : Time) (m : Map CandleScope Time)
    → Forward (get CandleScope-discrete k m) (
        get CandleScope-discrete k
          (put CandleScope-discrete key (later cutoff (get CandleScope-discrete key m)) m))
put-later k key cutoff m = elim (CandleScope-discrete key k) [
  | yes e ↦
      subst
        (λ x. Forward (get CandleScope-discrete x m) (
          get CandleScope-discrete x
            (put CandleScope-discrete key (later cutoff (get CandleScope-discrete key m)) m)))
        e
        (rw
          (get-put_self CandleScope-discrete key (later cutoff (get CandleScope-discrete key m)) m)
          (later-Forward cutoff (get CandleScope-discrete key m)))
  | no ne ↦
      rw
        (get-put_ne CandleScope-discrete key k (later cutoff (get CandleScope-discrete key m)) m ne)
        (Forward-refl (get CandleScope-discrete k m))
]

module _ {D : Type 0} where
  finish-cutoffs :
      (k : CandleScope) (m : Result (Staged D)) (r : Repository D)
      → ((g : Staged D) → m ≡ ok g → Unique g.cutoffs)
      → Forward
          (get CandleScope-discrete k r.cutoffs)
          (get CandleScope-discrete k (finish m r).0.cutoffs)
  finish-cutoffs k (ok g) r u =
      rw (raise_cutoffs-get k g.cutoffs r.cutoffs (u g refl)) (
        raised-Forward (get CandleScope-discrete k g.cutoffs)
          (get CandleScope-discrete k r.cutoffs))
  finish-cutoffs k (err e) r u = Forward-refl (get CandleScope-discrete k r.cutoffs)

  -- No call of `UpsertMany`, failed or not, takes a cutoff back.
  pub upsert_many-Forward :
      (ctx : Context) (now : Time) (rows : List (Stored D)) (r : Repository D) (k : CandleScope)
      → Forward
          (get CandleScope-discrete k r.cutoffs)
          (get CandleScope-discrete k (upsert_many ctx now rows r).0.cutoffs)
  unfolding upsert_many
  upsert_many-Forward ctx now [] r k = Forward-refl (get CandleScope-discrete k r.cutoffs)
  upsert_many-Forward ctx now (row ∷ rows) r k =
      finish-cutoffs k (stage_batch ctx r.history_candles now (row ∷ rows)) r (λ g staged.
        (stage-IsStaged ctx 1 r.history_candles now (row ∷ rows) nothing_staged g
          (stage_batch-ok ctx r.history_candles now (row ∷ rows) g staged)
          nothing-IsStaged).unique_cutoffs)

  -- Whatever its outcome, `DeleteBefore` takes no cutoff back.
  pub delete_before-Forward :
      (ctx : Context) (scope : Scope) (interval : Timeframe) (cutoff : Time) (r : Repository D)
      (k : CandleScope)
      → Forward
          (get CandleScope-discrete k r.cutoffs)
          (get CandleScope-discrete k (delete_before ctx scope interval cutoff r).0.cutoffs)
  unfolding delete_before
  delete_before-Forward ctx scope interval cutoff r k =
      elim (Result-cases (validated ctx scope interval cutoff)) [
        | inl valid ↦
            rw (valid, delete_before)
              (put-later k (record { scope = scope; interval = interval }) cutoff r.cutoffs)
        | inr (e, invalid) ↦
            rw (invalid, delete_before) (Forward-refl (get CandleScope-discrete k r.cutoffs))
      ]
