-- ===== src/Upstream/Spent.antt =====
-- `scopeState.usage` of internal/infrastructure/exchange/upstream/usage.go against plain sums of
-- the costs of the live reservations.
use market_data.Prelude.{
  ℕ, ◌+◌, ◌-◌, ◌≤◌, ◌≡◌, refl, ap, ◌∙◌, arith, Bool, true, false, ◌&&◌, List, [], ◌∷◌, ◌++◌,
  if◌then◌else◌, min, Option, none, some, ℕ_discrete, Bool-cases, inl, inr,
}
use market_data.Prelude.Map.{get}
use market_data.Domain.Time.{Time, after}
use market_data.Upstream.{
  Operation, PerOperation, at, change, Window, Entry, Observation, ScopeState, max_int, window_cost,
  add_usage,
}
use market_data.Upstream.Usage.{
  UsageView, live, add_entry, local_usage, observe, add_observation, observed_usage, no_usage,
  with_observations, is_weight, view_of, usage,
}

abbrev pub same_operation : Operation → Operation → Bool
same_operation Operation.tickers Operation.tickers = true
same_operation Operation.klines Operation.klines = true
same_operation Operation.instruments Operation.instruments = true
same_operation Operation.market_stats Operation.market_stats = true
same_operation _ _ = false

-- What the live reservations of an operation cost in a window, with no greatest value.
unfoldable pub spent : Bool → Window → Time → Operation → List Entry → ℕ
spent keep_inflight w now op [] = 0
spent keep_inflight w now op (e ∷ es) =
    (if live keep_inflight e w now && same_operation e.cost.operation op
      then window_cost w e.cost
      else 0)
    + spent keep_inflight w now op es

pub spent-append :
    (k : Bool) (w : Window) (now : Time) (op : Operation) (es fs : List Entry)
    → spent k w now op (es ++ fs) ≡ spent k w now op es + spent k w now op fs
unfolding spent
spent-append k w now op [] fs = omega arith
spent-append k w now op (e ∷ es) fs = omega (arith, spent-append k w now op es fs)

add_usage-min : (a b : ℕ) → a ≤ max_int → add_usage a b ≡ min max_int (a + b)
unfolding add_usage
add_usage-min a b h = ground arith

add_usage-le : (a b : ℕ) → a ≤ max_int → add_usage a b ≤ max_int
unfolding add_usage
add_usage-le a b h = ground arith

at-change_self :
    (op : Operation) (f : ℕ → ℕ) (s : PerOperation ℕ) → at (change op f s) op ≡ f (at s op)
at-change_self Operation.tickers f s = refl
at-change_self Operation.klines f s = refl
at-change_self Operation.instruments f s = refl
at-change_self Operation.market_stats f s = refl

at-change :
    (op op' : Operation) (f : ℕ → ℕ) (s : PerOperation ℕ)
    → at (change op f s) op' ≡ (if same_operation op op' then f (at s op') else at s op')
at-change op op' f s = ground arith

module _ (k : Bool) (w : Window) (now : Time) (op : Operation) where
  at-add_entry :
      (e : Entry) (v : UsageView)
      → at v.operations op ≤ max_int
      → at (add_entry k w e v).operations op
        ≡ min max_int (
            at v.operations op
            + (if same_operation e.cost.operation op then window_cost w e.cost else 0))
  unfolding add_entry
  at-add_entry e v h =
      at-change e.cost.operation op (λ n. add_usage n (window_cost w e.cost)) v.operations
      ∙ ground (arith, add_usage-min (at v.operations op) (window_cost w e.cost))

  at-next_usage :
      (e : Entry) (v : UsageView)
      → at v.operations op ≤ max_int
      → at (if live k e w now then add_entry k w e v else v).operations op
        ≡ min max_int (
            at v.operations op
            + (if live k e w now && same_operation e.cost.operation op
                then window_cost w e.cost
                else 0))
  at-next_usage e v h = elim (Bool-cases (live k e w now)) [
    | inl alive ↦ rw alive (at-add_entry e v h)
    | inr gone ↦ rw gone (omega arith)
  ]

  at-local_usage :
      (es : List Entry) (v : UsageView)
      → at v.operations op ≤ max_int
      → at (local_usage k w now es v).operations op
        ≡ min max_int (at v.operations op + spent k w now op es)
  unfolding local_usage spent
  at-local_usage [] v h = omega arith
  at-local_usage (e ∷ es) v h =
      let here = at-next_usage e v h in
      at-local_usage es (if live k e w now then add_entry k w e v else v) (omega arith)
      ∙ omega arith

  observed_usage-operations :
      (es : List Entry) (v : UsageView) → (observed_usage k w now es v).operations ≡ v.operations
  unfolding observed_usage add_observation
  observed_usage-operations [] v = refl
  observed_usage-operations (e ∷ es) v =
      observed_usage-operations es (observe k w now e (get ℕ_discrete w.duration e.observations) v)
      ∙ observe-operations e (get ℕ_discrete w.duration e.observations) v
    where
      observe-operations :
          (e : Entry) (o : Option Observation) (v : UsageView)
          → (observe k w now e o v).operations ≡ v.operations
      observe-operations e none v = refl
      observe-operations e (some o) v = ground arith

  with_observations-operations :
      (b : Bool) (es : List Entry) (v : UsageView)
      → (with_observations b k w now es v).operations ≡ v.operations
  with_observations-operations true es v = observed_usage-operations es v
  with_observations-operations false es v = refl

no_usage-at : (op : Operation) → at (no_usage true).operations op ≡ 0
no_usage-at op = ground arith

zero_usage : (op : Operation) → at (no_usage true).operations op ≤ max_int
zero_usage op = omega (arith, no_usage-at op)

-- The usage of an operation, as it is shown, is the sum of its live costs, held to the greatest
-- int.
pub usage-spent :
    (s : ScopeState) (w : Window) (now : Time) (op : Operation)
    → at (usage s w now).operations op ≡ min max_int (spent s.keep_inflight w now op s.history)
unfolding usage view_of
usage-spent s w now op =
    let empty = no_usage (after s.history_since (now - w.duration)) in
    ap (λ o. at o op)
      (with_observations-operations s.keep_inflight w now op (is_weight w.measure) s.history _)
    ∙ at-local_usage s.keep_inflight w now op s.history empty (zero_usage op)
    ∙ ap (λ n. min max_int (n + spent s.keep_inflight w now op s.history)) (no_usage-at op)
    ∙ omega arith
