-- ===== src/Application/Snapshots/Published.antt =====
-- What a refresh of internal/application/ticker/service.go leaves in the repositories.
use market_data.Prelude.{
  ◌≡◌, refl, ap, Bool, true, false, ite, Option, none, some, List, ◌⊎◌, inl, inr,
}
use market_data.Prelude.Map.{Map, get}
use market_data.Errors.{Error, Result, err, ok, Result-cases}
use market_data.Domain.Market.{Text}
use market_data.Application.Context.{Context}
use market_data.Application.Series.{Scope}
use market_data.Storage.Snapshots.{Shape, Repository, replace_rows, publish}
use market_data.Storage.Snapshots.Kinds.{ticker_shape, stats_shape, replace_tickers, replace_stats}
use market_data.Storage.Snapshots.Replace.{held, row_of, replace_rows-get}
use market_data.Application.Snapshots.{
  one_day, Collection, Snapshots, branch, failure_of, or_else, missing_stats, joined_errors,
  finish_refresh, refresh_tickers,
}

module _ {Key Row : Type 0} (shape : Shape Key Row) (ctx : Context) (key : Key)
    (rows : List Row) where
  -- The outcome of a branch whose rows were given with an error or none: it fails and leaves the
  -- repository as it was, with the error given or that of the repository, or the key holds the
  -- rows and the other keys what they held.
  abbrev pub Outcome :
      Option Error → Repository Key Row → Repository Key Row × Option Error → Type 0
  Outcome given old (new, failure) =
      ((e : Error) × (failure ≡ some e)
        × (new ≡ old)
        × ((given ≡ some e) ⊎ ((replace_rows shape ctx key rows old).1 ≡ err e)))
      ⊎ ((given ≡ none)
          × (failure ≡ none)
          × ((other : Key) (t : Text)
              → held shape (get shape.same_key other new) t
                ≡ ite (shape.same_key key other) (some (row_of shape t rows))
                    (held shape (get shape.same_key other old) t)))

  unchanged :
      (staged : Result (Map Text Row)) (e : Error) (old : Repository Key Row)
      → (publish shape key staged old).1 ≡ err e
      → (publish shape key staged old).0 ≡ old
  unchanged (err f) e old h = refl
  unchanged (ok next) e old h = cc

  replace_failed :
      (e : Error) (old : Repository Key Row)
      → (replace_rows shape ctx key rows old).1 ≡ err e
      → (replace_rows shape ctx key rows old).0 ≡ old
  unfolding replace_rows
  replace_failed e old h = unchanged _ e old h

  branch-Outcome :
      (given : Option Error) (old : Repository Key Row)
      → Outcome given old (branch given (replace_rows shape ctx key rows old) old)
  branch-Outcome (some e) old = inl (e, refl, refl, inl refl)
  branch-Outcome none old = elim (Result-cases (replace_rows shape ctx key rows old).1) [
    | inl written ↦ inr (
      refl,
      ap failure_of written,
      λ other t. replace_rows-get shape ctx key other t rows old written,
    )
    | inr (e, failed) ↦ inl (e, ap failure_of failed, replace_failed e old failed, inr failed)
  ]

-- A refresh of tickers publishes its two branches apart: each leaves its snapshots as they were,
-- with the error of the provider or of the repository, or publishes its rows, whatever the other
-- does. Where the provider sends no statistics the second branch is left out, and the refresh
-- returns the errors of the branches that there are.
pub refresh_tickers-Outcome :
    {D : Type 0} (deferred : Error → Bool) (ctx ctx' : Context) (scope : Scope) (shared : Bool)
    (failure : Option Error) (c : Collection D) (s : Snapshots D)
    → let r = refresh_tickers deferred ctx ctx' scope shared failure c s in
      (ticker_failure : Option Error) × Outcome
        (ticker_shape D)
        ctx
        scope
        c.tickers
        (or_else failure c.ticker_error)
        s.tickers
        (r.0.tickers, ticker_failure)
      × (((shared ≡ false) × (r.0.stats ≡ s.stats) × (r.1 ≡ ticker_failure))
          ⊎ ((stats_failure : Option Error) × (shared ≡ true)
              × Outcome
                  (stats_shape D)
                  ctx'
                  (record { scope = scope; window = one_day })
                  c.market_stats
                  (or_else failure (missing_stats shared c.has_market_stats c.market_stats_error))
                  s.stats
                  (r.0.stats, stats_failure)
              × (r.1 ≡ joined_errors ticker_failure stats_failure)))
unfolding refresh_tickers finish_refresh replace_tickers replace_stats
refresh_tickers-Outcome {D} deferred ctx ctx' scope false failure c s = (
  _,
  branch-Outcome (ticker_shape D) ctx scope c.tickers (or_else failure c.ticker_error) s.tickers,
  inl (refl, refl, refl),
)
refresh_tickers-Outcome {D} deferred ctx ctx' scope true failure c s = (
  _,
  branch-Outcome (ticker_shape D) ctx scope c.tickers (or_else failure c.ticker_error) s.tickers,
  inr (
    _,
    refl,
    branch-Outcome (stats_shape D) ctx' (record { scope = scope; window = one_day }) c.market_stats
        (or_else failure (missing_stats true c.has_market_stats c.market_stats_error)) s.stats,
    refl,
  ),
)
