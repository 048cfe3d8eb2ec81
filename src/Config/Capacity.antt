-- ===== src/Config/Capacity.antt =====
-- What `validateCapacity` and `validateExchanges` of internal/config/validate.go promise.
use market_data.Prelude.{
  if_cases, ℕ, ◌+◌, ◌-◌, ◌≤◌, ◌≡◌, refl, subst, arith, Bool, true, false, ◌&&◌, ◌||◌, ltb,
  if◌then◌else◌, none, List, [], ◌∷◌,
}
use market_data.Config.{Config, Lane}
use market_data.Config.Validate.{
  ◌then◌, Caps, left, exceeded, take_lanes, exchange_lanes, take_exchange, check_statistics,
  validate_capacity, caps_below_statistics, fill_caps,
}
use market_data.Config.Shares.{then-none, fail_if-none}

abbrev sum_by : (Lane → ℕ) → List Lane → ℕ
sum_by f [] = 0
sum_by f (l ∷ ls) = f l + sum_by f ls

-- The caps `left slots waiters` before lanes that take as much are caps enough.
Covers : Caps → ℕ → ℕ → ℕ → ℕ → Type 0
Covers (left slots waiters) s w s0 w0 = (slots + s ≡ s0) × (waiters + w ≡ w0)
Covers exceeded s w s0 w0 = Unit

take_exceeded : (lanes : List Lane) → take_lanes lanes exceeded ≡ exceeded
unfolding take_lanes
take_exceeded [] = refl
take_exceeded (lane ∷ lanes) = refl

Covers-same :
    (caps : Caps) (s0 w0 : ℕ) {s s' w w' : ℕ}
    → s ≡ s'
    → w ≡ w'
    → Covers caps s w s0 w0
    → Covers caps s' w' s0 w0
Covers-same caps s0 w0 {s} {s'} {w} {w'} p q h =
    subst (λ n. Covers caps s' n s0 w0) q (subst (λ n. Covers caps n w s0 w0) p h)

take_lanes-Covers :
    (lanes : List Lane) (caps : Caps) (s w s0 w0 : ℕ)
    → Covers caps s w s0 w0
    → Covers
        (take_lanes lanes caps)
        (s + sum_by (λ l. l.http_slots) lanes)
        (w + sum_by (λ l. l.waiters) lanes)
        s0
        w0
unfolding take_lanes Covers
take_lanes-Covers [] (left slots waiters) s w s0 w0 h = (omega arith, omega arith)
take_lanes-Covers [] exceeded s w s0 w0 h = tt
take_lanes-Covers (lane ∷ lanes) exceeded s w s0 w0 h = tt
take_lanes-Covers (lane ∷ lanes) (left slots waiters) s w s0 w0 h =
    let b = ltb slots lane.http_slots || ltb waiters lane.waiters in
    let caps = if b then exceeded else left (slots - lane.http_slots) (waiters - lane.waiters) in
    Covers-same (take_lanes lanes caps) s0 w0 (omega arith) (omega arith) (
      take_lanes-Covers lanes caps (s + lane.http_slots) (w + lane.waiters) s0 w0 (
        if_cases (λ caps. Covers caps (s + lane.http_slots) (w + lane.waiters) s0 w0) b (λ _. tt)
          (λ fits. (ground (arith, fits, h.0), ground (arith, fits, h.1)))))

take_exchange-Covers :
    (c : Config) (enabled : Bool) (caps : Caps) (s w s0 w0 : ℕ)
    → Covers caps s w s0 w0
    → Covers
        (take_exchange c enabled caps)
        (s + (if enabled then sum_by (λ l. l.http_slots) (exchange_lanes c) else 0))
        (w + (if enabled then sum_by (λ l. l.waiters) (exchange_lanes c) else 0))
        s0
        w0
take_exchange-Covers c true caps s w s0 w0 h = take_lanes-Covers (exchange_lanes c) caps s w s0 w0 h
take_exchange-Covers c false caps s w s0 w0 h = Covers-same caps s0 w0 (omega arith) (omega arith) h

-- What the lanes of the enabled exchanges take together, by a measure of their lanes: tickers,
-- instruments and klines of each, and the statistics of Binance.
abbrev pub enabled_total : Config → (each statistics : ℕ) → ℕ
enabled_total c each statistics =
    (if c.exchanges.bybit.enabled then each else 0)
    + (if c.exchanges.binance.enabled then each + statistics else 0)

statistics-fit :
    (c : Config) (caps : Caps) (s w s0 w0 : ℕ)
    → check_statistics c caps ≡ none
    → Covers caps s w s0 w0
    → (s
          + (if c.exchanges.binance.enabled
              then c.upstream.lanes_per_exchange.market_stats.http_slots
              else 0)
        ≤ s0)
      × (w
            + (if c.exchanges.binance.enabled
                then c.upstream.lanes_per_exchange.market_stats.waiters
                else 0)
          ≤ w0)
unfolding Covers
statistics-fit c exceeded s w s0 w0 h k = cc
statistics-fit c (left slots waiters) s w s0 w0 h k =
    let lane = c.upstream.lanes_per_exchange.market_stats in
    let fits =
      fail_if-none
        (c.exchanges.binance.enabled && (ltb slots lane.http_slots || ltb waiters lane.waiters))
        caps_below_statistics h in
    (ground (arith, fits, k.0), ground (arith, fits, k.1))

-- After the check of the capacity, the slots of all lanes of the enabled exchanges fit in the
-- global cap on HTTP attempts in flight, and their waiters in the global cap on waiters, so that
-- no lane is short of either; and the kline fills of one exchange fit in the global cap on fills
-- and in the slots of the kline lane.
pub validate_capacity-covers :
    (c : Config)
    → validate_capacity c ≡ none
    → let lanes = c.upstream.lanes_per_exchange in
      (enabled_total c
          (lanes.tickers.http_slots + lanes.instruments.http_slots + lanes.klines.http_slots)
          lanes.market_stats.http_slots
        ≤ c.upstream.max_http_inflight)
      × (enabled_total c
            (lanes.tickers.waiters + lanes.instruments.waiters + lanes.klines.waiters)
            lanes.market_stats.waiters
          ≤ c.upstream.max_admission_waiters)
      × (c.klines.max_active_fills_per_exchange ≤ c.klines.max_active_fills)
      × (c.klines.max_active_fills_per_exchange ≤ lanes.klines.http_slots)
unfolding validate_capacity Covers
validate_capacity-covers c h =
    let slots = c.upstream.max_http_inflight in
    let waiters = c.upstream.max_admission_waiters in
    let first = take_exchange c c.exchanges.bybit.enabled (left slots waiters) in
    let caps = take_exchange c c.exchanges.binance.enabled first in
    let (statistics, fills) = then-none (check_statistics c caps) _ h in
    let covered = take_exchange-Covers c c.exchanges.binance.enabled first _ _ slots waiters (
      take_exchange-Covers c c.exchanges.bybit.enabled (left slots waiters) 0 0 slots waiters
        (omega arith, omega arith)) in
    let (s, w) = statistics-fit c caps _ _ slots waiters statistics covered in
    let b =
      fail_if-none
        (ltb c.klines.max_active_fills c.klines.max_active_fills_per_exchange
          || ltb c.upstream.lanes_per_exchange.klines.http_slots
              c.klines.max_active_fills_per_exchange)
        fill_caps fills in
    (ground (arith, s), ground (arith, w), ground (arith, b), ground (arith, b))
