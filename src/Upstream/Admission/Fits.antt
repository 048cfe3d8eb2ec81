-- ===== src/Upstream/Admission/Fits.antt =====
-- `Controller.ready` of internal/infrastructure/exchange/upstream/controller.go: what a request
-- that is ready now finds in every window of its scope.
use market_data.Prelude.{
  ℕ, ◌+◌, ◌-◌, ◌≤◌, ◌<◌, ◌≡◌, refl, arith, Bool, true, false, not, ◌&&◌, ◌||◌, ◌==◌, if◌then◌else◌,
  Option, none, some, is_some, List, [], ◌∷◌, ℕ_discrete, All,
}
use market_data.Prelude.Map.{Map, get}
use market_data.Errors.{upstream_unavailable}
use market_data.Domain.Market.{Text}
use market_data.Domain.Time.{Time, after, is_zero, zero_time}
use market_data.Upstream.{
  Window, Cost, Entry, Observation, ScopeState, window_cost, earlier, max_time,
}
use market_data.Upstream.Usage.{
  UsageView, live, add_entry, local_usage, observe, add_observation, observed_usage, no_usage,
  with_observations, is_weight, view_of, usage, prune,
}
use market_data.Upstream.Admission.{
  Readiness, ready_at, refused, Deferral, has_room, over_common, over_share, too_large, retry_at,
  check_windows, ready,
}

-- The next change of a view lies ahead, or is not known.
abbrev Ahead : Time → Time → Type 0
Ahead now t = is_zero t || after t now ≡ true

earlier-Ahead : (now a b : Time) → Ahead now a → after b now ≡ true → Ahead now (earlier a b)
unfolding earlier
earlier-Ahead now a b h k = ground arith

module _ (w : Window) (now : Time) where
  local_usage-Ahead :
      (es : List Entry) (v : UsageView)
      → Ahead now v.next
      → Ahead now (local_usage false w now es v).next
  unfolding local_usage add_entry
  local_usage-Ahead [] v h = h
  local_usage-Ahead (e ∷ es) v h =
      local_usage-Ahead es (if live false e w now then add_entry false w e v else v)
        (ground (arith, earlier-Ahead now v.next (e.at + w.duration) h))

  observe-Ahead :
      (e : Entry) (o : Option Observation) (v : UsageView)
      → Ahead now v.next
      → Ahead now (observe false w now e o v).next
  unfolding add_observation
  observe-Ahead e none v h = h
  observe-Ahead e (some o) v h = ground (arith, earlier-Ahead now v.next o.expires h)

  observed_usage-Ahead :
      (es : List Entry) (v : UsageView)
      → Ahead now v.next
      → Ahead now (observed_usage false w now es v).next
  unfolding observed_usage
  observed_usage-Ahead [] v h = h
  observed_usage-Ahead (e ∷ es) v h =
      observed_usage-Ahead es (observe false w now e (get ℕ_discrete w.duration e.observations) v)
        (observe-Ahead e (get ℕ_discrete w.duration e.observations) v h)

  with_observations-Ahead :
      (b : Bool) (es : List Entry) (v : UsageView)
      → Ahead now v.next
      → Ahead now (with_observations b false w now es v).next
  with_observations-Ahead true es v h = observed_usage-Ahead es v h
  with_observations-Ahead false es v h = h

usage-Ahead :
    (s : ScopeState) (w : Window) (now : Time)
    → s.keep_inflight ≡ false
    → Ahead now (usage s w now).next
unfolding usage view_of
usage-Ahead s w now h = rw h (
    with_observations-Ahead w now (is_weight w.measure) s.history _ (
      local_usage-Ahead w now s.history (no_usage (after s.history_since (now - w.duration))) refl))

-- What admits a request in a window: it costs nothing there, or it is not too large, and there is
-- room, where a scope whose attempts in flight stay counted asks for less.
abbrev pub admits : ScopeState → Cost → Time → Window → Bool
admits s c now w =
    window_cost w c == 0
    || (not (too_large s w c)
        && (has_room s w c now
            || (s.keep_inflight && not (over_common s w now) && not (over_share s w c now))))

not_refused :
    (b : Bool) (x : Readiness) (r : Time)
    → (if b then refused upstream_unavailable else x) ≡ ready_at r
    → (b ≡ false) × (x ≡ ready_at r)
not_refused true x r h = cc
not_refused false x r h = (refl, h)

not_blocked :
    (b : Bool) (o : Option Deferral) (d : Deferral)
    → is_some (if b then o else some d) ≡ false
    → (b ≡ true) × (is_some o ≡ false)
not_blocked true o d h = (refl, h)
not_blocked false o d h = cc

le_trans : {a b c : ℕ} → a ≤ b → b ≤ c → a ≤ c
le_trans h k = omega arith

retry_at-le :
    (b : Bool) (ready next expires : Time)
    → ready ≤ (if b then ready else retry_at expires next ready)
retry_at-le b ready next expires = ground arith

-- A window without room makes the request wait.
retry_at-waits :
    (b : Bool) (ready next expires now : Time)
    → (if b then ready else retry_at expires next ready) ≤ now
    → now < expires
    → (b ≡ false → Ahead now next)
    → b ≡ true
retry_at-waits true ready next expires now h k a = refl
retry_at-waits false ready next expires now h k a = ground (arith, a refl)

room_for :
    (zero large room keeps common share : Bool)
    → not zero && large ≡ false
    → (zero || room) || keeps ≡ true
    → ((zero || room) || not keeps || (not common && not share)) ≡ true
    → zero || (not large && (room || (keeps && not common && not share))) ≡ true
room_for zero large room keeps common share a b d = ground arith

module _ (s : ScopeState) (c : Cost) (expires now : Time) where
  later_ready :
      (ws : Map Text Window) (start r : Time) (blocked : Option Deferral)
      → check_windows s c expires now ws start blocked ≡ ready_at r
      → (start ≤ r) × (is_some blocked ≡ false)
  unfolding check_windows
  later_ready [] start r none h = ground arith
  later_ready [] start r (some d) h = ground arith
  later_ready ((name, w) ∷ ws) start r blocked h =
      let (allowed, rest) = not_refused (not (window_cost w c == 0) && too_large s w c) _ r h in
      let (bound, clear) = later_ready ws _ r _ rest in
      let (open_now, none_yet) = not_blocked _ blocked _ clear in
      (
        le_trans
            (retry_at-le ((window_cost w c == 0 || has_room s w c now) || s.keep_inflight) start
              (usage s w now).next expires)
            bound,
        none_yet,
      )

  check_windows-admits :
      (ws : Map Text Window) (start r : Time) (blocked : Option Deferral)
      → check_windows s c expires now ws start blocked ≡ ready_at r
      → r ≤ now
      → now < expires
      → All (λ entry. admits s c now entry.1 ≡ true) ws
  unfolding check_windows
  check_windows-admits [] start r blocked h k l = tt
  check_windows-admits ((name, w) ∷ ws) start r blocked h k l =
      let (allowed, rest) = not_refused (not (window_cost w c == 0) && too_large s w c) _ r h in
      let (bound, clear) = later_ready ws _ r _ rest in
      let (unblocked, none_yet) = not_blocked _ blocked _ clear in
      (
        room_for (window_cost w c == 0) (too_large s w c) (has_room s w c now) s.keep_inflight
            (over_common s w now) (over_share s w c now) allowed
            (retry_at-waits ((window_cost w c == 0 || has_room s w c now) || s.keep_inflight) start
              (usage s w now).next expires now (le_trans bound k) l
              (λ off. usage-Ahead s w now (right_false _ s.keep_inflight off)))
            unblocked,
        check_windows-admits ws _ r _ rest k l,
      )
    where
      right_false : (a b : Bool) → a || b ≡ false → b ≡ false
      right_false true b h = cc
      right_false false b h = h

-- A request that is ready now, before its admission expires, is admitted in every window of its
-- scope, as `ready` left the scope.
pub ready-admits :
    (s : ScopeState) (c : Cost) (expires not_before now r : Time)
    → (ready s c expires not_before now).1 ≡ ready_at r
    → r ≤ now
    → now < expires
    → All (λ entry. admits (prune now s) c now entry.1 ≡ true) (prune now s).windows
unfolding ready prune
ready-admits s c expires not_before now r h k l =
    check_windows-admits (prune now s) c expires now (prune now s).windows
      (max_time (max_time (max_time zero_time (prune now s).next) (prune now s).cooldown)
        not_before)
      r none h k l
