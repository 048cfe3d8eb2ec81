-- ===== src/Upstream/Admission/Flights.antt =====
-- The histories after `rollback`, `dispatch` and `usageHeaders` of
-- internal/infrastructure/exchange/upstream/transport.go and
-- internal/infrastructure/exchange/upstream/usage.go: what is in flight in them, and what they
-- cost.
use market_data.Prelude.{
  ℕ, ◌+◌, ◌≤◌, ◌≡◌, refl, ◌∙◌, arith, Bool, true, false, ◌==◌, if◌then◌else◌, Option, none, some,
  List, [], ◌∷◌,
}
use market_data.Prelude.Map.{Map}
use market_data.Domain.Market.{Text}
use market_data.Domain.Time.{Time, is_zero}
use market_data.Upstream.{Operation, Window, Entry}
use market_data.Upstream.Usage.{is_weight}
use market_data.Upstream.Spent.{spent}
use market_data.Upstream.Admission.Queue.{attempt}
use market_data.Upstream.Admission.Slots.{flying}
use market_data.Upstream.Admission.Flight.{
  withdraw, send, revise, observed, observe_windows, receive,
}

-- A write that leaves alone what the costs and the counters depend on.
abbrev pub Alike : Entry → Entry → Type 0
Alike e f = (f.at ≡ e.at) × (f.cost ≡ e.cost) × (f.inflight ≡ e.inflight)

pub send-Alike : (e : Entry) → Alike e (send e)
send-Alike e = (refl, refl, refl)

observed-Alike : (w : Window) (o : Option ℕ) (e : Entry) → Alike e (observed w o e)
observed-Alike w none e = (refl, refl, refl)
observed-Alike w (some n) e = ground arith

Alike-trans : (e f g : Entry) → Alike e f → Alike f g → Alike e g
Alike-trans e f g h k = (k.0 ∙ h.0, k.1 ∙ h.1, k.2 ∙ h.2)

observe_windows-Alike :
    (used : ℕ → Option ℕ) (ws : Map Text Window) (e : Entry) → Alike e (observe_windows used ws e)
unfolding observe_windows
observe_windows-Alike used [] e = (refl, refl, refl)
observe_windows-Alike used ((name, w) ∷ ws) e =
    Alike-trans e (step (is_weight w.measure))
      (observe_windows used ws (step (is_weight w.measure))) (step-Alike (is_weight w.measure))
      (observe_windows-Alike used ws (step (is_weight w.measure)))
  where
    step : Bool → Entry
    step b = if b then observed w (used w.duration) e else e

    step-Alike : (b : Bool) → Alike e (step b)
    step-Alike true = observed-Alike w (used w.duration) e
    step-Alike false = (refl, refl, refl)

pub receive-Alike :
    (now : Time) (used : ℕ → Option ℕ) (ws : Map Text Window) (e : Entry)
    → Alike e (receive now used ws e)
unfolding receive
receive-Alike now used ws e =
    observe_windows-Alike used ws
      (record e { received = if is_zero e.received then now else e.received })

pub flying-revise :
    (q : Operation → Bool) (f : Entry → Entry) (ticket : ℕ) (es : List Entry)
    → ((e : Entry) → Alike e (f e))
    → flying q (revise f ticket es) ≡ flying q es
unfolding flying revise
flying-revise q f ticket [] h = refl
flying-revise q f ticket (e ∷ es) h = at_head (e.ticket == ticket) (flying-revise q f ticket es h)
  where
    at_head :
        (b : Bool)
        → flying q (revise f ticket es) ≡ flying q es
        → flying q (if b then f e ∷ es else e ∷ revise f ticket es) ≡ flying q (e ∷ es)
    at_head true rest = rw ((h e).1, (h e).2) refl
    at_head false rest = omega (arith, rest)

pub flying-withdraw :
    (q : Operation → Bool) (ticket : ℕ) (es : List Entry) {e : Entry}
    → attempt ticket es ≡ some e
    → e.inflight ≡ true
    → flying q (withdraw ticket es) + (if q e.cost.operation then 1 else 0) ≡ flying q es
unfolding flying withdraw attempt
flying-withdraw q ticket [] h k = cc
flying-withdraw q ticket (x ∷ es) {e} h k =
    at_head (x.ticket == ticket) h (λ later. flying-withdraw q ticket es later k)
  where
    at_head :
        (b : Bool)
        → (if b then some x else attempt ticket es) ≡ some e
        → (attempt ticket es ≡ some e
            → flying q (withdraw ticket es) + (if q e.cost.operation then 1 else 0) ≡ flying q es)
        → flying q (if b then es else x ∷ withdraw ticket es)
            + (if q e.cost.operation then 1 else 0)
          ≡ flying q (x ∷ es)
    at_head true h later = let same_entry : x ≡ e = cc in rw (same_entry, k) (omega arith)
    at_head false h later = omega (arith, later h)

module _ (k : Bool) (w : Window) (op : Operation) (now : Time) where
  pub spent-revise :
      (f : Entry → Entry) (ticket : ℕ) (es : List Entry)
      → ((e : Entry) → Alike e (f e))
      → spent k w now op (revise f ticket es) ≡ spent k w now op es
  unfolding spent revise
  spent-revise f ticket [] h = refl
  spent-revise f ticket (e ∷ es) h = at_head (e.ticket == ticket) (spent-revise f ticket es h)
    where
      at_head :
          (b : Bool)
          → spent k w now op (revise f ticket es) ≡ spent k w now op es
          → spent k w now op (if b then f e ∷ es else e ∷ revise f ticket es)
            ≡ spent k w now op (e ∷ es)
      at_head true rest = rw ((h e).0, (h e).1, (h e).2) refl
      at_head false rest = omega (arith, rest)

  pub spent-withdraw :
      (ticket : ℕ) (es : List Entry) → spent k w now op (withdraw ticket es) ≤ spent k w now op es
  unfolding spent withdraw
  spent-withdraw ticket [] = omega arith
  spent-withdraw ticket (e ∷ es) = ground (arith, spent-withdraw ticket es)
