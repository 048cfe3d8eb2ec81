-- ===== src/Upstream/Admission/FlightBudget.antt =====
-- `rollback`, `dispatch`, `usageHeaders` and a catalog that lowers no limit keep the shares of a
-- scope (internal/infrastructure/exchange/upstream/controller.go).
use market_data.Prelude.{ℕ, ◌≤◌, ◌≡◌, refl, arith, Bool, List, [], ◌∷◌, All}
use market_data.Prelude.Map.{Map}
use market_data.Domain.Market.{Text}
use market_data.Domain.Time.{Time}
use market_data.Upstream.{Operation, at, Window, Cost, Entry, ScopeState, max_int, window_cost}
use market_data.Upstream.Percent.{percent_mono}
use market_data.Upstream.Spent.{spent}
use market_data.Upstream.Admission.Flight.{withdrawn, revise}
use market_data.Upstream.Admission.Flights.{Alike, spent-revise, spent-withdraw}
use market_data.Upstream.Admission.Steps.{Raised, NoLower}
use market_data.Upstream.Admission.Budget.{Within, Budgeted, All-map}

pub withdrawn-Budgeted :
    (now : Time) (e : Entry) (s : ScopeState) → Budgeted now s → Budgeted now (withdrawn e s)
withdrawn-Budgeted now e s b = record {
  sound = record { limits = b.sound.limits; shares = b.sound.shares };
  within =
      All-map
        (λ entry h split op.
          omega
            (arith, h split op, spent-withdraw s.keep_inflight entry.1 op now e.ticket s.history))
        s.windows b.within;
}

pub revise-Budgeted :
    (now : Time) (f : Entry → Entry) (ticket : ℕ) (s : ScopeState)
    → ((e : Entry) → Alike e (f e))
    → Budgeted now s
    → Budgeted now (record s { history = revise f ticket s.history })
revise-Budgeted now f ticket s alike b = record {
  sound = record { limits = b.sound.limits; shares = b.sound.shares };
  within =
      All-map
        (λ entry h split op.
          omega (
            arith,
            h split op,
            spent-revise s.keep_inflight entry.1 op now f ticket s.history alike,
          ))
        s.windows b.within;
}

Raised-cost : (w v : Window) (c : Cost) → Raised w v → window_cost v c ≡ window_cost w c
unfolding window_cost
Raised-cost w v c h = ground (arith, h)

spent-Raised :
    (k : Bool) (w v : Window) (now : Time) (op : Operation) (es : List Entry)
    → Raised w v
    → spent k v now op es ≡ spent k w now op es
unfolding spent
spent-Raised k w v now op [] h = refl
spent-Raised k w v now op (e ∷ es) h =
    rw (Raised-cost w v e.cost h, h.1, spent-Raised k w v now op es h) refl

Raised-Within :
    (now : Time) (s : ScopeState) (windows : Map Text Window) (w v : Window)
    → Raised w v
    → Within now s w
    → Within now (record s { windows = windows }) v
Raised-Within now s windows w v h within split op = omega (
  arith,
  within (rw (← h.3) split) op,
  spent-Raised s.keep_inflight w v now op s.history h,
  percent_mono w.limit v.limit (at s.shares op) h.4,
)

-- A catalog that adds no window and lowers no limit.
pub raised-Budgeted :
    (now : Time) (windows : Map Text Window) (s : ScopeState)
    → NoLower s.windows windows
    → Budgeted now s
    → Budgeted now (record s { windows = windows })
raised-Budgeted now windows s h b = record {
  sound = record { limits = limits s.windows windows h; shares = b.sound.shares };
  within = within s.windows windows h b.within;
}
  where
    limits : (ws vs : Map Text Window) → NoLower ws vs → All (λ entry. entry.1.limit ≤ max_int) vs
    limits [] [] h = tt
    limits [] (y ∷ vs) h = elim h [ ]
    limits (x ∷ ws) [] h = elim h [ ]
    limits (x ∷ ws) (y ∷ vs) (h, rest) = (h.5, limits ws vs rest)

    within :
        (ws vs : Map Text Window)
        → NoLower ws vs
        → All (λ entry. Within now s entry.1) ws
        → All (λ entry. Within now (record s { windows = windows }) entry.1) vs
    within [] [] h k = tt
    within [] (y ∷ vs) h k = elim h [ ]
    within (x ∷ ws) [] h k = elim h [ ]
    within ((name, w) ∷ ws) ((name', v) ∷ vs) (h, rest) (k, ks) =
        (Raised-Within now s windows w v h k, within ws vs rest ks)
