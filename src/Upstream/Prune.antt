-- ===== src/Upstream/Prune.antt =====
-- `scopeState.prune` of internal/infrastructure/exchange/upstream/usage.go against
-- `scopeState.usage`.
use market_data.Prelude.{
  ℕ, ◌+◌, ◌-◌, ◌≤◌, ◌≡◌, refl, sym, ap, ◌∙◌, arith, Bool, true, false, Option, none, some, List, [],
  ◌∷◌, if◌then◌else◌, ℕ_discrete, Bool-cases, inl, inr, All,
}
use market_data.Prelude.Map.{get, get-nil, get-keep, guarded, Unique}
use market_data.Domain.Time.{Time, after}
use market_data.Upstream.{Window, Entry, Observation, ScopeState}
use market_data.Upstream.Usage.{
  UsageView, longest, kept_entry, has_entries, prune_observations, prune_history, prune, live,
  add_entry, local_usage, observe, add_observation, observed_usage, no_usage, with_observations,
  is_weight, complete, view_of, usage,
}

-- The observations of every reservation are a map.
abbrev pub ObservedOnce : List Entry → Type 0
ObservedOnce = All (λ e. Unique e.observations)

module _ (keep_inflight : Bool) (w : Window) (now cutoff : Time)
    (old : cutoff + w.duration ≤ now) where
  dropped-live :
      (e : Entry)
      → kept_entry cutoff (prune_observations now e) ≡ false
      → live keep_inflight e w now ≡ false
  unfolding prune_observations
  dropped-live e h = ground arith

  local_usage-prune_history :
      (es : List Entry) (v : UsageView)
      → local_usage keep_inflight w now (prune_history now cutoff es) v
        ≡ local_usage keep_inflight w now es v
  unfolding local_usage prune_history add_entry
  local_usage-prune_history [] v = refl
  local_usage-prune_history (e ∷ es) v =
      elim (Bool-cases (kept_entry cutoff (prune_observations now e))) [
        | inl stays ↦ rw stays (
            local_usage-prune_history es
              (if live keep_inflight e w now then add_entry keep_inflight w e v else v))
        | inr goes ↦ rw (goes, dropped-live e goes) (local_usage-prune_history es v)
      ]

  observe-guarded :
      (e : Entry) (o : Option Observation) (v : UsageView)
      → observe keep_inflight w now e (guarded (λ o. after o.expires now) o) v
        ≡ observe keep_inflight w now e o v
  observe-guarded e none v = refl
  observe-guarded e (some o) v = ground arith

  get-prune_observations :
      (e : Entry)
      → Unique e.observations
      → get ℕ_discrete w.duration (prune_observations now e).observations
        ≡ guarded (λ o. after o.expires now) (get ℕ_discrete w.duration e.observations)
  unfolding prune_observations
  get-prune_observations e u =
      get-keep ℕ_discrete (λ duration o. after o.expires now) w.duration e.observations u

  nothing_kept :
      (e : Entry)
      → kept_entry cutoff (prune_observations now e) ≡ false
      → (prune_observations now e).observations ≡ []
  nothing_kept e h = no_entries (prune_observations now e).observations (ground arith)
    where
      no_entries : (m : List (ℕ × Observation)) → has_entries m ≡ false → m ≡ []
      no_entries [] h = refl
      no_entries (x ∷ xs) h = cc

  observe-prune_observations :
      (e : Entry) (v : UsageView)
      → Unique e.observations
      → observe keep_inflight w now
          (prune_observations now e)
          (get ℕ_discrete w.duration (prune_observations now e).observations)
          v
        ≡ observe keep_inflight w now e (get ℕ_discrete w.duration e.observations) v
  unfolding prune_observations add_observation
  observe-prune_observations e v u =
      ap (λ o. observe keep_inflight w now e o v) (get-prune_observations e u)
      ∙ observe-guarded e (get ℕ_discrete w.duration e.observations) v

  observe_dropped :
      (e : Entry) (v : UsageView)
      → Unique e.observations
      → kept_entry cutoff (prune_observations now e) ≡ false
      → observe keep_inflight w now e (get ℕ_discrete w.duration e.observations) v ≡ v
  observe_dropped e v u h =
      sym (observe-prune_observations e v u)
      ∙ rw (nothing_kept e h, get-nil {V = Observation} ℕ_discrete w.duration) refl

  observed_usage-prune_history :
      (es : List Entry) (v : UsageView)
      → ObservedOnce es
      → observed_usage keep_inflight w now (prune_history now cutoff es) v
        ≡ observed_usage keep_inflight w now es v
  unfolding observed_usage prune_history
  observed_usage-prune_history [] v u = refl
  observed_usage-prune_history (e ∷ es) v u =
      elim (Bool-cases (kept_entry cutoff (prune_observations now e))) [
        | inl stays ↦ rw stays (
            observed_usage-prune_history es _ u.1
            ∙ ap (observed_usage keep_inflight w now es) (observe-prune_observations e v u.0))
        | inr goes ↦ rw goes (
            observed_usage-prune_history es v u.1
            ∙ ap (observed_usage keep_inflight w now es) (sym (observe_dropped e v u.0 goes)))
      ]

with-prune_history :
    (b k : Bool) (w : Window) (now cutoff : Time) (es : List Entry)
    → cutoff + w.duration ≤ now
    → ObservedOnce es
    → (v : UsageView)
    → with_observations b k w now (prune_history now cutoff es) v ≡ with_observations b k w now es v
with-prune_history true k w now cutoff es old u v =
    rw (observed_usage-prune_history k w now cutoff old es v u)
with-prune_history false k w now cutoff es old u v = refl

same_view :
    (incomplete incomplete' k : Bool) (w : Window) (now cutoff : Time) (es : List Entry)
    → cutoff + w.duration ≤ now
    → ObservedOnce es
    → incomplete' ≡ incomplete
    → view_of incomplete' k w now (prune_history now cutoff es) ≡ view_of incomplete k w now es
unfolding view_of
same_view incomplete incomplete' k w now cutoff es old u e =
    rw (e, local_usage-prune_history k w now cutoff old es (no_usage incomplete))
      (ap (λ v. complete v incomplete)
        (with-prune_history (is_weight w.measure) k w now cutoff es old u _))

-- If the clock is later than the longest window, forgetting reservations and observations by
-- `prune` changes no view of the usage of a window of the scope.
pub usage-prune :
    (s : ScopeState) (w : Window) (now : Time)
    → w.duration ≤ longest s.windows
    → longest s.windows ≤ now
    → ObservedOnce s.history
    → usage (prune now s) w now ≡ usage s w now
unfolding prune usage
usage-prune s w now shorter late u =
    same_view (after s.history_since (now - w.duration)) _ s.keep_inflight w now
      (now - longest s.windows) s.history (omega arith) u (ground arith)
