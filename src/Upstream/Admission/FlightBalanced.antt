-- ===== src/Upstream/Admission/FlightBalanced.antt =====
-- `rollback`, `dispatch`, `usageHeaders` and `updateCatalog` keep the counters of the controller
-- (internal/infrastructure/exchange/upstream/controller.go).
use market_data.Prelude.{ℕ, ◌≡◌, refl, ap, arith, Bool, if_cases, Option, none, some, ◌∙◌}
use market_data.Prelude.Map.{Map}
use market_data.Errors.{Error}
use market_data.Domain.Market.{Text}
use market_data.Domain.Time.{Time}
use market_data.Upstream.{UpstreamScope, Operation, Window, Entry, ScopeState}
use market_data.Upstream.Usage.{prune}
use market_data.Upstream.Admission.{Controller, set_scope}
use market_data.Upstream.Admission.Flight.{
  send, receive, withdrawn, rollback, dispatch, usage_headers, replace_windows,
}
use market_data.Upstream.Admission.Flights.{
  send-Alike, receive-Alike, flying-revise, flying-withdraw,
}
use market_data.Upstream.Admission.Slots.{flying, flying_in, flying-prune, tally-set_scope}
use market_data.Upstream.Admission.Steps.{InFlight}
use market_data.Upstream.Admission.Balanced.{Balanced, rescope-Balanced, one_less-Balanced}

module _ (c : Controller) (b : Balanced c) (scope : UpstreamScope) (s : ScopeState) where
  -- A scope with the same attempts in flight.
  same_flights-Balanced :
      (t : ScopeState)
      → c.scopes scope ≡ some s
      → ((q : Operation → Bool) → flying q t.history ≡ flying q s.history)
      → Balanced (record c { scopes = set_scope scope t c.scopes })
  same_flights-Balanced t h same =
      rescope-Balanced c (set_scope scope t c.scopes)
        (λ q.
          omega
            (arith, tally-set_scope q scope t c.scopes, same (q scope), ap (flying_in (q scope)) h))
        b

  pub rollback-Balanced :
      (operation : ℕ) (e : Entry) → InFlight c scope s e → Balanced (rollback scope s operation e c)
  unfolding rollback
  rollback-Balanced operation e h =
      if_cases Balanced e.dispatched (λ _. b)
        (λ _.
          one_less-Balanced scope e.cost.operation s (withdrawn e s) _ c h.0
            (λ q. flying-withdraw q e.ticket s.history h.1 h.2) b)

  pub dispatch-Balanced :
      (failure : Option Error) (ticket : ℕ)
      → c.scopes scope ≡ some s
      → Balanced (dispatch failure scope s ticket c)
  unfolding dispatch
  dispatch-Balanced (some failure) ticket h = b
  dispatch-Balanced none ticket h =
      same_flights-Balanced _ h (λ q. flying-revise q send ticket s.history send-Alike)

  pub usage_headers-Balanced :
      (used : ℕ → Option ℕ) (ticket : ℕ) (now : Time)
      → c.scopes scope ≡ some s
      → Balanced (usage_headers used scope s ticket now c)
  unfolding usage_headers
  usage_headers-Balanced used ticket now h = same_flights-Balanced _ h (λ q.
      flying-revise q (receive now used (prune now s).windows) ticket (prune now s).history
        (receive-Alike now used (prune now s).windows)
      ∙ flying-prune q now s)

  pub replace_windows-Balanced :
      (windows : Map Text Window)
      → c.scopes scope ≡ some s
      → Balanced (replace_windows windows scope s c)
  unfolding replace_windows
  replace_windows-Balanced windows h = same_flights-Balanced _ h (λ q. refl)
