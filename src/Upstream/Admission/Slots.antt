-- ===== src/Upstream/Admission/Slots.antt =====
-- How many attempts of a controller are in flight, by the histories of its scopes
-- (internal/infrastructure/exchange/upstream/controller.go).
use market_data.Prelude.{
  ℕ, ◌+◌, ◌≡◌, refl, ◌∙◌, arith, Bool, true, false, ◌&&◌, ◌==◌, if◌then◌else◌, Option, none, some,
  List, [], ◌∷◌, ◌++◌,
}
use market_data.Domain.Time.{Time}
use market_data.Upstream.{
  UpstreamScope, binance_spot, binance_linear, bybit, Operation, Cost, Entry, ScopeState,
}
use market_data.Upstream.Usage.{prune_observations, prune_history, prune}
use market_data.Upstream.Admission.{Controller, set_scope, reserve}
use market_data.Upstream.Admission.Queue.{land, attempt}
use market_data.Upstream.Admission.Pruned.{Pruned, same, prunes}

-- The attempts in flight whose operation passes a test.
unfoldable pub flying : (Operation → Bool) → List Entry → ℕ
flying q [] = 0
flying q (e ∷ es) = (if e.inflight && q e.cost.operation then 1 else 0) + flying q es

abbrev pub flying_in : (Operation → Bool) → Option ScopeState → ℕ
flying_in q none = 0
flying_in q (some s) = flying q s.history

-- The same over all scopes.
unfoldable pub tally : (UpstreamScope → Operation → Bool) → (UpstreamScope → Option ScopeState) → ℕ
unfolding flying
tally q scopes =
    flying_in (q binance_spot) (scopes binance_spot)
    + flying_in (q binance_linear) (scopes binance_linear)
    + flying_in (q bybit) (scopes bybit)

pub tally-set_scope :
    (q : UpstreamScope → Operation → Bool) (k : UpstreamScope) (s : ScopeState)
    (scopes : UpstreamScope → Option ScopeState)
    → tally q (set_scope k s scopes) + flying_in (q k) (scopes k)
      ≡ tally q scopes + flying (q k) s.history
unfolding tally
tally-set_scope q binance_spot s scopes = omega arith
tally-set_scope q binance_linear s scopes = omega arith
tally-set_scope q bybit s scopes = omega arith

pub flying-prune_history :
    (q : Operation → Bool) (now cutoff : Time) (es : List Entry)
    → flying q (prune_history now cutoff es) ≡ flying q es
unfolding flying prune_history prune_observations
flying-prune_history q now cutoff [] = refl
flying-prune_history q now cutoff (e ∷ es) = ground (arith, flying-prune_history q now cutoff es)

pub flying-prune :
    (q : Operation → Bool) (now : Time) (s : ScopeState)
    → flying q (prune now s).history ≡ flying q s.history
unfolding prune
flying-prune q now s = flying-prune_history q now _ s.history

flying-append :
    (q : Operation → Bool) (es fs : List Entry) → flying q (es ++ fs) ≡ flying q es + flying q fs
unfolding flying
flying-append q [] fs = omega arith
flying-append q (e ∷ es) fs = omega (arith, flying-append q es fs)

pub flying-reserve :
    (q : Operation → Bool) (ticket : ℕ) (c : Cost) (now : Time) (s : ScopeState)
    → flying q (reserve ticket c now s).history
      ≡ flying q s.history + (if q c.operation then 1 else 0)
unfolding reserve flying
flying-reserve q ticket c now s = flying-append q s.history _ ∙ omega arith

pub flying-land :
    (q : Operation → Bool) (ticket : ℕ) (es : List Entry) {e : Entry}
    → attempt ticket es ≡ some e
    → e.inflight ≡ true
    → flying q (land ticket es) + (if q e.cost.operation then 1 else 0) ≡ flying q es
unfolding flying land attempt
flying-land q ticket [] h k = cc
flying-land q ticket (x ∷ es) {e} h k =
    at_head (x.ticket == ticket) h (λ later. flying-land q ticket es later k)
  where
    at_head :
        (b : Bool)
        → (if b then some x else attempt ticket es) ≡ some e
        → (attempt ticket es ≡ some e
            → flying q (land ticket es) + (if q e.cost.operation then 1 else 0) ≡ flying q es)
        → flying q (if b then record x { inflight = false } ∷ es else x ∷ land ticket es)
            + (if q e.cost.operation then 1 else 0)
          ≡ (if x.inflight && q x.cost.operation then 1 else 0) + flying q es
    at_head true h later = let same_entry : x ≡ e = cc in rw (same_entry, k) (omega arith)
    at_head false h later = omega (arith, later h)

pub tally-Pruned :
    (q : UpstreamScope → Operation → Bool) {now : Time} {c c' : Controller}
    → Pruned now c c'
    → tally q c'.scopes ≡ tally q c.scopes
tally-Pruned q same = refl
tally-Pruned q {now} (prunes {c} k s h p) =
    let before_it : flying_in (q k) (c.scopes k) ≡ flying (q k) s.history = rw h refl in
    tally-Pruned q p
    ∙ omega (arith, tally-set_scope q k (prune now s) c.scopes, flying-prune (q k) now s, before_it)
