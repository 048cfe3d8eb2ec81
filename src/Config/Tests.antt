-- ===== src/Config/Tests.antt =====
-- The checks of the settings on the default ones, and the theorems about them at concrete inputs.
use market_data.Prelude.{◌+◌, ◌≤◌, ◌≡◌, refl, true, false, none, ℕ_discrete}
use market_data.Prelude.Map.{get}
use market_data.Prelude.Text.{bytes, same_text, Text-discrete}
use market_data.Config.{Window, minute}
use market_data.Config.Defaults.{defaults}
use market_data.Config.Validate.{
  validate_shares_and_cooldowns, check_shares, validate_exchanges, validate_capacity, take_lanes,
}
use market_data.Config.Budgets.{validate_budgets, allowances}
use market_data.Config.Local.{
  Network, validate_positive_values, validate_local_settings, valid_hostname, number_leaves,
  split_labels,
}
use market_data.Config.Observed.{Texts, validate, validate_observability}
use market_data.Config.Shares.{allowances-bounded}
use market_data.Config.Capacity.{enabled_total, validate_capacity-covers}

shares_ok : validate_shares_and_cooldowns defaults ≡ none
unfolding validate_shares_and_cooldowns check_shares defaults
shares_ok = refl

capacity_ok : validate_capacity defaults ≡ none
unfolding validate_capacity take_lanes defaults
capacity_ok = refl

-- Where no host is an IP address and hosts are compared as they are.
abbrev no_network : Network
no_network = record {
  IpAddress = Unit;
  parse_ip = λ t. none;
  equal = λ a b. true;
  is_unspecified = λ a. false;
  is_v4 = λ a. true;
  equal_fold = same_text;
}

abbrev plain_texts : Texts
plain_texts = record { parse_url = λ t. none; trim_space = λ t. t; clean = λ t. t }

defaults_ok : validate plain_texts no_network defaults ≡ none
unfolding validate validate_positive_values number_leaves validate_local_settings
    validate_shares_and_cooldowns validate_exchanges validate_capacity validate_budgets
    validate_observability defaults get Text-discrete ℕ_discrete
defaults_ok = refl

hostname_tests :
    (valid_hostname (bytes "api.example-1.org") ≡ true)
    × (valid_hostname (bytes "-a.org") ≡ false)
    × (valid_hostname (bytes "a..b") ≡ false)
unfolding valid_hostname split_labels
hostname_tests = (refl, refl, refl)

abbrev spot_minute : Window
spot_minute = record {
  explicit_limit = false;
  measure = bytes "weight";
  window = minute;
  limit = 6000;
  split_operations = true;
}

allowances-bounded_example :
    let (common, a) = allowances defaults spot_minute true in
    (a.tickers + a.klines + a.instruments + a.market_stats ≤ common) × (common ≤ 6000)
allowances-bounded_example = allowances-bounded defaults spot_minute true shares_ok

validate_capacity-covers_example :
    let c = defaults in
    let lanes = c.upstream.lanes_per_exchange in
    (enabled_total c
        (lanes.tickers.http_slots + lanes.instruments.http_slots + lanes.klines.http_slots)
        lanes.market_stats.http_slots
      ≤ c.upstream.max_http_inflight)
    × (enabled_total c
          (lanes.tickers.waiters + lanes.instruments.waiters + lanes.klines.waiters)
          lanes.market_stats.waiters
        ≤ c.upstream.max_admission_waiters)
    × (c.klines.max_active_fills_per_exchange ≤ c.klines.max_active_fills)
    × (c.klines.max_active_fills_per_exchange ≤ lanes.klines.http_slots)
validate_capacity-covers_example = validate_capacity-covers defaults capacity_ok
