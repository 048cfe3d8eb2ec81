-- ===== src/Application/Retention/Tests.antt =====
-- A pass of internal/application/kline/retention.go over a repository with one candle.
use market_data.Prelude.{◌≡◌, refl, none, [], ◌∷◌, All}
use market_data.Errors.{ok, err, invalid_parameter}
use market_data.Domain.Names.{m1, Timeframe-discrete}
use market_data.Application.Context.{background}
use market_data.Application.Series.{Scope-discrete}
use market_data.Storage.Klines.{prune}
use market_data.Storage.Klines.Read.{validated, prune_scope, delete_before}
use market_data.Storage.Klines.Tests.{btc, minute, kept, kept-Tidy, run}
use market_data.Application.Retention.{
  Retention, new_retention, check_calendars, clean_scope, clean_scopes, clean,
}
use market_data.Application.Retention.Cleaned.{Cleaned, clean-Cleaned}

abbrev one_minute : Retention
one_minute = record { scopes = record { scope = btc.scope; interval = m1 } ∷ []; history = 1 }

built : new_retention one_minute.scopes 1 ≡ ok one_minute
unfolding run new_retention check_calendars
built = refl

refused : new_retention one_minute.scopes 0 ≡ err invalid_parameter
unfolding new_retention
refused = refl

-- Minute 1000 is the cutoff, and the candle of minute 999 goes.
passes : (clean one_minute background (λ n. background) (minute 1001 30) kept).1 ≡ none
unfolding run clean clean_scopes clean_scope delete_before validated prune_scope prune
    Scope-discrete Timeframe-discrete
passes = refl

clean-Cleaned_example :
    All
      (Cleaned
        (minute 1001 30)
        1
        (clean one_minute background (λ n. background) (minute 1001 30) kept).0.series)
      one_minute.scopes
clean-Cleaned_example =
    clean-Cleaned one_minute background (λ n. background) (minute 1001 30) kept kept-Tidy passes
