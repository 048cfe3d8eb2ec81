-- ===== src/Config/Local.antt =====
-- `validatePositiveValues`, `validateLocalSettings`, `validHostname` and `overlappingHosts` of
-- internal/config/validate.go. Package net is not under this repository, and neither is
-- `strings.EqualFold`: the answers that the code uses of them are parameters. The reflective walk
-- over the leaves of `Config` is written out as their list.
use market_data.Prelude.{
  ℕ, ◌+◌, ◌-◌, ◌*◌, ◌/◌, max, Bool, true, false, not, ◌&&◌, ◌||◌, ltb, leb, ◌==◌, if◌then◌else◌,
  Option, some, is_some, List, [], ◌∷◌, ◌++◌, length,
}
use market_data.Prelude.Map.{Map}
use market_data.Prelude.Text.{bytes, same_text}
use market_data.Domain.Market.{Text}
use market_data.Domain.Time.{second}
use market_data.Upstream.{max_int}
use market_data.Config.{Config, Window, Scope, CycleLane, write_grace}
use market_data.Config.Validate.{
  Problem, fail_if, ◌then◌, must_be_positive, driver_not_memory, invalid_host, invalid_port,
  overlapping_addresses, byte_limits_overflow, grpc_byte_limits, history_overflow, shutdown_timeout,
  market_stats_windows, retry_backoff,
}

abbrev window_leaves : Map Text Window → List ℕ
window_leaves [] = []
window_leaves ((id, w) ∷ ws) = w.window ∷ w.limit ∷ window_leaves ws

abbrev scope_leaves : Scope → List ℕ
scope_leaves s = s.min_request_spacing ∷ window_leaves s.windows

abbrev cycle_leaves : CycleLane → List ℕ
cycle_leaves l = l.http_slots ∷ l.waiters ∷ l.cycle_timeout ∷ l.max_attempts ∷ []

abbrev upstream_leaves : Config → List ℕ
upstream_leaves c =
    let u = c.upstream in
    let lanes = u.lanes_per_exchange in
    let shares = u.operation_share_percent in
    (u.binance.stop_threshold_percent
      ∷ u.binance.catalog_refresh_interval
      ∷ shares.tickers
      ∷ shares.klines
      ∷ shares.instruments
      ∷ shares.market_stats
      ∷ u.max_http_inflight
      ∷ u.max_admission_waiters
      ∷ u.admission_timeout
      ∷ cycle_leaves lanes.tickers)
    ++ cycle_leaves lanes.instruments
    ++ (lanes.klines.http_slots
        ∷ lanes.klines.waiters
        ∷ lanes.klines.max_attempts
        ∷ cycle_leaves lanes.market_stats)
    ++ scope_leaves u.limits.binance_spot
    ++ scope_leaves u.limits.binance_linear
    ++ scope_leaves u.limits.bybit
    ++ u.cooldown.binance_429 ∷ u.cooldown.binance_418 ∷ u.cooldown.bybit_429
      ∷ u.cooldown.bybit_10006 ∷ u.cooldown.bybit_403_access_too_frequent ∷ []

-- The ints and durations of the settings, but the safety margin.
unfoldable pub number_leaves : Config → List ℕ
number_leaves c =
    let g = c.server.grpc in
    let h = c.server.http in
    let k = c.klines in
    let bybit_pages = c.exchanges.bybit.klines.max_candles_per_request in
    let binance_pages = c.exchanges.binance.klines.max_candles_per_request in
    (g.port
      ∷ g.max_request_bytes
      ∷ g.max_response_bytes
      ∷ g.max_header_bytes
      ∷ h.port
      ∷ h.read_header_timeout
      ∷ h.idle_timeout
      ∷ h.write_timeout
      ∷ h.max_header_bytes
      ∷ h.max_query_bytes
      ∷ c.server.shutdown_timeout
      ∷ c.server.max_snapshot_requests
      ∷ c.server.snapshot_timeout
      ∷ c.storage.cleanup_interval
      ∷ k.request_timeout
      ∷ k.max_history_candles
      ∷ k.max_callers
      ∷ k.max_active_fills
      ∷ k.max_active_fills_per_exchange
      ∷ k.fill_timeout
      ∷ upstream_leaves c)
    ++ c.exchanges.bybit.instruments.refresh_interval ∷ bybit_pages.spot ∷ bybit_pages.linear
      ∷ c.exchanges.binance.instruments.refresh_interval ∷ binance_pages.spot ∷ binance_pages.linear
      ∷ c.exchanges.binance.market_stats.refresh_interval ∷ c.http_client.timeout
      ∷ c.http_client.max_response_bytes ∷ c.http_client.retry.max_attempts
      ∷ c.http_client.retry.initial_backoff ∷ c.http_client.retry.max_backoff ∷ []

abbrev pub all_positive : List ℕ → Bool
all_positive [] = true
all_positive (n ∷ ns) = ltb 0 n && all_positive ns

unfoldable pub validate_positive_values : Config → Option Problem
unfolding number_leaves
validate_positive_values c = fail_if (not (all_positive (number_leaves c))) must_be_positive

-- `strings.Split(host, ".")`.
abbrev in_first : ℕ → List Text → List Text
in_first b [] = (b ∷ []) ∷ []
in_first b (label ∷ labels) = (b ∷ label) ∷ labels

unfoldable pub split_labels : Text → List Text
split_labels [] = [] ∷ []
split_labels (b ∷ bs) =
    let labels = split_labels bs in if b == 46 then [] ∷ labels else in_first b labels

abbrev pub hostname_byte : ℕ → Bool
hostname_byte r = leb 97 r && leb r 122 || leb 65 r && leb r 90 || leb 48 r && leb r 57 || r == 45

abbrev all_hostname_bytes : Text → Bool
all_hostname_bytes [] = true
all_hostname_bytes (r ∷ rs) = hostname_byte r && all_hostname_bytes rs

-- Does a label start, or end, with a dash? The empty one does neither.
abbrev starts_dash : Text → Bool
starts_dash [] = false
starts_dash (r ∷ rs) = r == 45

abbrev ends_dash : Text → Bool
ends_dash [] = false
ends_dash (r ∷ []) = r == 45
ends_dash (r ∷ rs) = ends_dash rs

abbrev pub valid_label : Text → Bool
valid_label label =
    not (length label == 0 || ltb 63 (length label) || starts_dash label || ends_dash label)
    && all_hostname_bytes label

abbrev valid_labels : List Text → Bool
valid_labels [] = true
valid_labels (label ∷ labels) = valid_label label && valid_labels labels

unfoldable pub valid_hostname : Text → Bool
unfolding split_labels
valid_hostname host = not (ltb 253 (length host)) && valid_labels (split_labels host)

-- What the code uses of packages net and strings.
pub record Network : Type 1 where
  pub IpAddress : Type 0
  pub parse_ip : Text → Option IpAddress
  pub equal : IpAddress → IpAddress → Bool
  pub is_unspecified : IpAddress → Bool
  pub is_v4 : IpAddress → Bool
  pub equal_fold : Text → Text → Bool

module _ (net : Network) where
  abbrev overlapping_ips : Option net.IpAddress → Option net.IpAddress → Bool
  overlapping_ips (some a) (some b) =
      net.equal a b
      || (net.is_unspecified a || net.is_unspecified b)
        && (net.is_v4 a && net.is_v4 b || not (net.is_v4 a) && not (net.is_v4 b))
  overlapping_ips _ _ = false

  unfoldable pub overlapping_hosts : Text → Text → Bool
  overlapping_hosts first second =
      net.equal_fold first second
      || (length first == 0 || length second == 0)
      || overlapping_ips (net.parse_ip first) (net.parse_ip second)

  abbrev check_listener : Text → ℕ → Option Problem
  check_listener host port =
      fail_if
        (not (length host == 0) && not (is_some (net.parse_ip host)) && not (valid_hostname host))
        invalid_host
      then fail_if (ltb 65535 port) invalid_port

  unfoldable pub validate_local_settings : Config → Option Problem
  unfolding overlapping_hosts valid_hostname
  validate_local_settings c =
      let g = c.server.grpc in
      let h = c.server.http in
      let lifetime =
        max (max c.klines.request_timeout c.klines.fill_timeout) c.server.snapshot_timeout in
      fail_if (not (same_text c.storage.driver (bytes "memory"))) driver_not_memory
      then check_listener g.host g.port
      then check_listener h.host h.port
      then fail_if (g.port == h.port && overlapping_hosts g.host h.host) overlapping_addresses
      then fail_if
          (ltb (max_int - 4096) h.max_header_bytes || c.http_client.max_response_bytes == max_int)
          byte_limits_overflow
      then fail_if
          (ltb 2147483647 g.max_request_bytes
            || ltb 2147483647 g.max_response_bytes
            || ltb 2147483647 g.max_header_bytes)
          grpc_byte_limits
      then fail_if (ltb (max_int / (31 * 24 * 60 * 60)) c.klines.max_history_candles)
          history_overflow
      then fail_if
          (ltb (max_int - write_grace) lifetime
            || ltb c.server.shutdown_timeout (lifetime + write_grace))
          shutdown_timeout
      then fail_if (not (is_day c.market_stats.windows)) market_stats_windows
      then fail_if (ltb c.http_client.retry.max_backoff c.http_client.retry.initial_backoff)
          retry_backoff
    where
      is_day : List Text → Bool
      is_day (w ∷ []) = same_text w (bytes "24h")
      is_day _ = false
