-- ===== src/Application/Retention.antt =====
-- internal/application/kline/retention.go over the candle repository: `NewRetention` and `Clean`.
-- `ctx` gives the answers of `Clean`'s own checks of its context, `calls n` those of the n-th
-- call of `DeleteBefore`. Errors that are joined keep what `errors.Is` finds in each.
pub mod Cleaned
mod Tests
use market_data.Prelude.{
  ℕ, suc, Bool, true, false, not, ◌||◌, leb, Option, none, some, List, [], ◌∷◌,
}
use market_data.Prelude.Int.{pos}
use market_data.Errors.{Error, Result, err, ok, ◌>>=◌, ◌>>◌, guard, both, invalid_parameter}
use market_data.Domain.Names.{Exchange, Market, Timeframe}
use market_data.Domain.Time.{Time}
use market_data.Domain.Timeframe.{Calendar, new_calendar, history_cutoff}
use market_data.Application.Context.{Context, check}
use market_data.Application.Series.{Scope}
use market_data.Storage.Klines.{Repository}
use market_data.Storage.Klines.Read.{delete_before}

pub record RetentionScope : Type 0 where
  pub scope : Scope
  pub open scope use *
  pub interval : Timeframe

pub record Retention : Type 0 where
  pub scopes : List RetentionScope
  pub history : ℕ

unfoldable pub check_calendars : List RetentionScope → Result (Unit {0})
check_calendars [] = ok tt
check_calendars (s ∷ scopes) = do
  calendar ← new_calendar s.exchange s.market s.interval
  check_calendars scopes

-- A history that is not positive is 0.
unfoldable pub new_retention : List RetentionScope → ℕ → Result Retention
unfolding check_calendars
new_retention scopes history = do
  guard (not (leb history 0)) invalid_parameter
  check_calendars scopes
  ok (record { scopes = scopes; history = history })

-- `errors.Join(failures, err)`.
abbrev pub join_error : Option Error → Error → Error
join_error none e = e
join_error (some failures) e = both failures e

module _ {D : Type 0} where
  abbrev pub failing : Option Error → Repository D × Result (Unit {0}) → Repository D × Option Error
  failing failures (r, ok _) = (r, failures)
  failing failures (r, err e) = (r, some (join_error failures e))

  -- One scope, after the check of the context.
  unfoldable pub clean_scope :
      Context
      → Time
      → ℕ
      → RetentionScope
      → Calendar
      → Option Error
      → Repository D
      → Repository D × Option Error
  unfolding history_cutoff delete_before
  clean_scope call now history s calendar failures r =
      elim (history_cutoff calendar now (pos history)) [
        | err e ↦ (r, some (join_error failures e))
        | ok cutoff ↦ failing failures (delete_before call s.scope s.interval cutoff r)
      ]

  -- The loop from the n-th scope on.
  unfoldable pub clean_scopes :
      Context
      → (ℕ → Context)
      → Time
      → ℕ
      → ℕ
      → List RetentionScope
      → Option Error
      → Repository D
      → Repository D × Option Error
  unfolding clean_scope
  clean_scopes ctx calls now history n [] failures r = (r, failures)
  clean_scopes ctx calls now history n (s ∷ scopes) failures r = elim (ctx (suc n)) [
    | some e ↦ (r, some (join_error failures e))
    | none ↦ elim (new_calendar s.exchange s.market s.interval) [
      | err e ↦ (r, some e)
      | ok calendar ↦
          let (r', failures') = clean_scope (calls n) now history s calendar failures r in
          clean_scopes ctx calls now history (suc n) scopes failures' r'
    ]
  ]

  unfoldable pub clean :
      Retention → Context → (ℕ → Context) → Time → Repository D → Repository D × Option Error
  unfolding clean_scopes
  clean retention ctx calls now r = elim (ctx 0) [
    | some e ↦ (r, some e)
    | none ↦ clean_scopes ctx calls now retention.history 0 retention.scopes none r
  ]
