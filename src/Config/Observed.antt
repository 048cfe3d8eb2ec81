-- ===== src/Config/Observed.antt =====
-- `validateObservability` and `Validate` of internal/config/validate.go. Packages net/url and
-- path and `strings.TrimSpace` are not under this repository: the answers that the code uses are
-- parameters.
use market_data.Prelude.{
  ℕ, Bool, true, false, not, ◌&&◌, ◌||◌, ltb, ◌==◌, if◌then◌else◌, Option, none, some, [], ◌∷◌,
  length,
}
use market_data.Prelude.Text.{bytes, same_text}
use market_data.Domain.Market.{Text}
use market_data.Config.{Config, Float64, not_a_number, infinite, finite}
use market_data.Config.Validate.{
  Problem, fail_if, ◌then◌, sample_rate, no_environment, invalid_dsn, invalid_metrics_path,
  validate_shares_and_cooldowns, validate_exchanges, validate_capacity,
}
use market_data.Config.Local.{Network, validate_positive_values, validate_local_settings}
use market_data.Config.Budgets.{validate_budgets}

-- A parsed URL, as far as the code reads it. `username` is missing where `User` is nil.
pub record Url : Type 0 where
  pub scheme : Text
  pub hostname : Text
  pub username : Option Text
  pub path : Text
  pub raw_query : Text
  pub fragment : Text

pub record Texts : Type 0 where
  pub parse_url : Text → Option Url
  pub trim_space : Text → Text
  pub clean : Text → Text

abbrev in_unit_interval : Float64 → Bool
in_unit_interval not_a_number = false
in_unit_interval infinite = false
in_unit_interval (finite true n d) = n == 0
in_unit_interval (finite false n d) = not (ltb d n)

abbrev pub has_prefix : Text → Text → Bool
has_prefix t [] = true
has_prefix [] (b ∷ bs) = false
has_prefix (a ∷ t) (b ∷ bs) = a == b && has_prefix t bs

-- Is a byte one of those of a text, and is any byte of a text?
abbrev any_byte : (ℕ → Bool) → Text → Bool
any_byte p [] = false
any_byte p (b ∷ bs) = p b || any_byte p bs

abbrev contains_any : Text → Text → Bool
contains_any t chars = any_byte (λ a. any_byte (λ b. a == b) chars) t

-- `strings.Trim(path, "/") == ""`.
abbrev only_slashes : Text → Bool
only_slashes path = not (any_byte (λ b. not (b == 47)) path)

abbrev empty_name : Option Text → Bool
empty_name none = true
empty_name (some name) = length name == 0

abbrev valid_dsn : Option Url → Bool
valid_dsn none = false
valid_dsn (some u) =
    (same_text u.scheme (bytes "https") || same_text u.scheme (bytes "http"))
    && not (length u.hostname == 0)
    && not (empty_name u.username)
    && not (only_slashes u.path)
    && length u.raw_query == 0
    && length u.fragment == 0

module _ (texts : Texts) where
  abbrev valid_metrics_path : Text → Bool
  valid_metrics_path metrics =
      has_prefix metrics (bytes "/")
      && not (same_text metrics (bytes "/"))
      && same_text (texts.clean metrics) metrics
      && not (contains_any metrics (bytes "{}?%# \t\r\n"))
      && not (has_prefix metrics (bytes "//"))
      && not (same_text metrics (bytes "/health"))
      && not (same_text metrics (bytes "/ready"))
      && not (has_prefix metrics (bytes "/api"))
      && not (has_prefix metrics (bytes "/debug"))

  unfoldable pub validate_observability : Config → Option Problem
  validate_observability c =
      let sentry = c.observability.sentry in
      fail_if (not (in_unit_interval sentry.traces_sample_rate)) sample_rate
      then fail_if (length (texts.trim_space sentry.environment) == 0) no_environment
      then fail_if
          ((sentry.enabled || not (length sentry.dsn == 0))
            && not (valid_dsn (texts.parse_url sentry.dsn)))
          invalid_dsn
      then fail_if (not (valid_metrics_path c.observability.prometheus.path)) invalid_metrics_path

  unfoldable pub validate : Network → Config → Option Problem
  unfolding validate_observability
  validate net c =
      validate_positive_values c
      then validate_local_settings net c
      then validate_shares_and_cooldowns c
      then validate_exchanges c
      then validate_capacity c
      then validate_budgets c
      then validate_observability c
