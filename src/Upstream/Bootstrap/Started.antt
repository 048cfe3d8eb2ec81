-- ===== src/Upstream/Bootstrap/Started.antt =====
-- The controller that `New` of internal/infrastructure/exchange/upstream/controller.go makes, and
-- its runs.
use market_data.Prelude.{
  ℕ, ◌-◌, ◌≤◌, ◌≡◌, refl, sym, subst, arith, min, Bool, true, false, not, ◌||◌, ltb, ◌==◌,
  if◌then◌else◌, none, some, [], ◌∷◌, All,
}
use market_data.Prelude.Map.{Map, get}
use market_data.Prelude.Text.{Text-discrete}
use market_data.Domain.Market.{Text}
use market_data.Domain.Time.{Time}
use market_data.Config as config
use market_data.Config.{Config}
use market_data.Config.Validate.{validate_shares_and_cooldowns}
use market_data.Config.Shares.{SharesChecked, validate_shares-checked}
use market_data.Upstream.{
  UpstreamScope, binance_spot, binance_linear, bybit, Operation, PerOperation, at, Window,
  ScopeState, max_int,
}
use market_data.Upstream.Percent.{percent-le}
use market_data.Upstream.Spent.{spent}
use market_data.Upstream.Admission.{Controller}
use market_data.Upstream.Admission.Slots.{tally, flying, flying_in}
use market_data.Upstream.Admission.Steps.{Steady, Reach, sum}
use market_data.Upstream.Admission.Balanced.{Balanced, of_lane}
use market_data.Upstream.Admission.InFlight.{reach-Balanced}
use market_data.Upstream.Admission.Budget.{Budgeted, Within}
use market_data.Upstream.Admission.Budgets.{AllBudgeted, reach-Budgeted}
use market_data.Upstream.Bootstrap.{
  is_bybit, bootstrap_limits, limit_of, add_window, add_windows, scope_shares, add_scope,
  new_scopes, spot_scope, linear_scope, bybit_scope, new_controller,
}

limit_of-get :
    (n : ℕ) (key : Text) (m : Map Text config.Window)
    → All (λ entry. entry.1.limit ≤ n) m
    → limit_of (get Text-discrete key m) ≤ n
unfolding get
limit_of-get n key [] h = omega arith
limit_of-get n key ((j, w) ∷ m) h = ground (arith, h.0, limit_of-get n key m h.1)

ceiling-le :
    (id : UpstreamScope) (key : Text)
    → limit_of (get Text-discrete key (bootstrap_limits id).windows) ≤ max_int
ceiling-le binance_spot key = limit_of-get max_int key _ (omega arith, (omega arith, tt))
ceiling-le binance_linear key = limit_of-get max_int key _ (omega arith, (omega arith, tt))
ceiling-le bybit key = limit_of-get max_int key _ (omega arith, tt)

add_window-limit :
    (c : Config) (id : UpstreamScope) (key : Text) (w : config.Window)
    → SharesChecked c
    → (add_window c id key w).limit ≤ max_int
unfolding add_window
add_window-limit c id key w checked =
    let ceiling = limit_of (get Text-discrete key (bootstrap_limits id).windows) in
    let threshold =
      if is_bybit id
      then 100 - c.upstream.safety_margin_percent
      else c.upstream.binance.stop_threshold_percent in
    let user_cap =
      if is_bybit id || w.explicit_limit || not (w.limit == ceiling) then w.limit else 0 in
    let below : threshold ≤ 100 = ground (arith, checked.threshold) in
    le_trans (percent-le _ threshold below)
      (le_trans (effective-le ceiling user_cap) (ceiling-le id key))
  where
    effective-le : (ceiling cap : ℕ) → (if ltb 0 cap then min ceiling cap else ceiling) ≤ ceiling
    effective-le ceiling cap = ground arith

    le_trans : {a b c : ℕ} → a ≤ b → b ≤ c → a ≤ c
    le_trans h k = omega arith

add_windows-limits :
    (c : Config) (id : UpstreamScope) (ws : Map Text config.Window)
    → SharesChecked c
    → All (λ entry. entry.1.limit ≤ max_int) (add_windows c id ws)
unfolding add_windows
add_windows-limits c id [] checked = tt
add_windows-limits c id ((key, w) ∷ ws) checked =
    (add_window-limit c id key w checked, add_windows-limits c id ws checked)

scope_shares-le :
    (c : Config) (id : UpstreamScope) (op : Operation)
    → SharesChecked c
    → at (scope_shares c id) op ≤ 100
scope_shares-le c id op checked = ground (arith, checked.shares_total)

none_spent :
    (ws : Map Text Window) (s : ScopeState) (now : Time)
    → s.history ≡ []
    → All (λ entry. Within now s entry.1) ws
unfolding spent
none_spent [] s now h = tt
none_spent ((name, w) ∷ ws) s now h = ((λ split op. rw h (omega arith)), none_spent ws s now h)

add_scope-Budgeted :
    (c : Config) (id : UpstreamScope) (cfg : config.Scope) (costs : PerOperation ℕ) (now : Time)
    → SharesChecked c
    → Budgeted now (add_scope c id cfg costs now)
unfolding add_scope
add_scope-Budgeted c id cfg costs now checked = record {
  sound = record {
    limits = add_windows-limits c id cfg.windows checked;
    shares = λ op. scope_shares-le c id op checked;
  };
  within = none_spent (add_windows c id cfg.windows) (add_scope c id cfg costs now) now refl;
}

enabled_scope :
    (P : ScopeState → Type 0) (b : Bool) (s t : ScopeState)
    → P s
    → (if b then some s else none) ≡ some t
    → P t
enabled_scope P true s t h e = subst P (unwrap e) h
  where
    unwrap : some s ≡ some t → s ≡ t
    unwrap e = cc
enabled_scope P false s t h e = cc

pub new-Budgeted :
    (c : Config) (now : Time) → SharesChecked c → AllBudgeted now (new_controller c now)
unfolding new_controller
new-Budgeted c now checked binance_spot s e =
    enabled_scope (Budgeted now) _ (spot_scope c now) s
      (add_scope-Budgeted c binance_spot _ _ now checked) e
new-Budgeted c now checked binance_linear s e =
    enabled_scope (Budgeted now) _ (linear_scope c now) s
      (add_scope-Budgeted c binance_linear _ _ now checked) e
new-Budgeted c now checked bybit s e =
    enabled_scope (Budgeted now) _ (bybit_scope c now) s
      (add_scope-Budgeted c bybit _ _ now checked) e

none_flying :
    (q : Operation → Bool) (b : Bool) (s : ScopeState)
    → s.history ≡ []
    → flying_in q (if b then some s else none) ≡ 0
unfolding flying
none_flying q true s h = rw h refl
none_flying q false s h = refl

new-tally :
    (c : Config) (now : Time) (q : UpstreamScope → Operation → Bool)
    → tally q (new_scopes c now) ≡ 0
unfolding tally add_scope
new-tally c now q = omega (
  arith,
  none_flying (q binance_spot) _ (spot_scope c now) refl,
  none_flying (q binance_linear) _ (linear_scope c now) refl,
  none_flying (q bybit) c.exchanges.bybit.enabled (bybit_scope c now) refl,
)

pub new-Balanced : (c : Config) (now : Time) → Balanced (new_controller c now)
unfolding new_controller sum
new-Balanced c now = record {
  counted = sym (new-tally c now _);
  by_lane = λ i. ground (arith, new-tally c now (of_lane i));
  in_slots = λ i. ground arith;
  in_flight = omega arith;
  in_queues = λ i. ground arith;
  queued_sum = refl;
  in_waiters = omega arith;
}

-- If the shares and the cooldowns of the settings pass their checks, and no catalog in a run from
-- the controller that `New` makes of the settings lowers a limit or adds a window, then every
-- controller in the run is within its bounds on attempts in flight and on waiters, and, at every
-- time from the last step on, within the shares of all split windows; the clock does not go back.
pub new-keeps :
    (c : Config) (start : Time) {c' : Controller} {now : Time} (later : Time)
    → validate_shares_and_cooldowns c ≡ none
    → (run : Reach (new_controller c start) start c' now) → Steady run
    → now ≤ later
    → Balanced c' × AllBudgeted later c'
new-keeps c start later h run steady l = (
  reach-Balanced (new_controller c start) start run (new-Balanced c start),
  reach-Budgeted (new_controller c start) start later run steady l
      (new-Budgeted c start (validate_shares-checked c h)),
)
