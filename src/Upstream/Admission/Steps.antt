-- ===== src/Upstream/Admission/Steps.antt =====
-- The controller of internal/infrastructure/exchange/upstream/controller.go over time, with the
-- time that its clock reads. The steps are the critical sections of its mutex that change the
-- scopes, the lanes, the operations or the counters: `Begin`, `acquire` (its start, each round of
-- its loop and its way out), `release`, `Cooldown`, `rollback`, `dispatch`, `usageHeaders` and
-- `updateCatalog`. The rounds of `acquire` interleave with all else. Those of `catalogFailure` and
-- of the diagnostics change only fields that are reported, which the model leaves out.
use market_data.Prelude.{
  ℕ, zero, suc, ◌+◌, ◌≤◌, ◌<◌, ◌≡◌, refl, arith, Bool, true, false, ◌==◌, Option, some, List, [],
  ◌∷◌, ◌⊎◌, Bool-cases, inl, inr,
}
use market_data.Errors.{Error}
use market_data.Prelude.Map.{Map}
use market_data.Domain.Market.{Text}
use market_data.Domain.Time.{Time}
use market_data.Upstream.{UpstreamScope, Operation, Window, Cost, Entry, ScopeState, max_int}
use market_data.Upstream.Admission.{Waiter, Controller}
use market_data.Upstream.Admission.Queue.{
  begin, enter, turn, leave, lane_of, attempt, release, cool_down,
}
use market_data.Upstream.Admission.Flight.{rollback, dispatch, usage_headers, replace_windows}

-- A waiter in a queue.
abbrev pub In : Waiter → List Waiter → Type 0
In w [] = ⊥
In w (v ∷ vs) = (v ≡ w) ⊎ In w vs

-- The history of the scope holds the attempt, in flight.
abbrev pub InFlight : Controller → UpstreamScope → ScopeState → Entry → Type 0
InFlight c scope s e =
    (c.scopes scope ≡ some s) × (attempt e.ticket s.history ≡ some e) × (e.inflight ≡ true)

pub data Step (now : Time) (c : Controller) : Controller → Type 0 where
  enters :
      (failure : Option Error) (scope : UpstreamScope) (cost : Cost) (operation : ℕ)
      (not_before entered : Time)
      → Step now c (enter failure scope cost operation not_before entered now c).0
  begins_cycle : (scope : UpstreamScope) (kind : Operation) → Step now c (begin scope kind c).0
  turns :
      (dead : ℕ → Bool) (failure : Option Error) (deadline : Option Time) (w : Waiter)
      → In w (c.lanes (lane_of w)).queue
      → Step now c (turn dead failure deadline now w c).0
  gives_up : (w : Waiter) → In w (c.lanes (lane_of w)).queue → Step now c (leave w c)
  releases : (scope : UpstreamScope) (ticket : ℕ) → Step now c (release scope ticket now c)
  -- `RoundTrip` calls the next three for an attempt that it has acquired and not released.
  rolls_back :
      (scope : UpstreamScope) (s : ScopeState) (operation : ℕ) (e : Entry)
      → InFlight c scope s e
      → Step now c (rollback scope s operation e c)
  dispatches :
      (failure : Option Error) (scope : UpstreamScope) (s : ScopeState) (e : Entry)
      → InFlight c scope s e
      → Step now c (dispatch failure scope s e.ticket c)
  reads_headers :
      (used : ℕ → Option ℕ) (scope : UpstreamScope) (s : ScopeState) (e : Entry)
      → InFlight c scope s e
      → Step now c (usage_headers used scope s e.ticket now c)
  updates_catalog :
      (windows : Map Text Window) (scope : UpstreamScope) (s : ScopeState)
      → c.scopes scope ≡ some s
      → Step now c (replace_windows windows scope s c)
  cools_down : (scope : UpstreamScope) (until : Time) → Step now c (cool_down scope until c)

pub data Reach (c : Controller) (start : Time) : Controller → Time → Type 0 where
  begins : Reach c start c start
  continues :
      {c' c'' : Controller} {before now : Time}
      → Reach c start c' before
      → before ≤ now
      → Step now c' c''
      → Reach c start c'' now

-- The window of a new catalog is an old one with a limit at least as high, that is an int.
abbrev pub Raised : Window → Window → Type 0
Raised w v =
    (v.measure ≡ w.measure)
    × (v.duration ≡ w.duration)
    × (v.funding ≡ w.funding)
    × (v.split ≡ w.split)
    × (w.limit ≤ v.limit)
    × (v.limit ≤ max_int)

-- The catalog has the old windows, and lowers no limit.
abbrev pub NoLower : Map Text Window → Map Text Window → Type 0
NoLower [] [] = Unit {0}
NoLower ((name, w) ∷ ws) ((name', v) ∷ vs) = Raised w v × NoLower ws vs
NoLower _ _ = ⊥

-- A catalog that the step applies lowers no limit and adds no window.
unfoldable pub Keeps : {now : Time} {c c' : Controller} → Step now c c' → Type 0
Keeps (enters failure scope cost operation not_before entered) = Unit {0}
Keeps (begins_cycle scope kind) = Unit {0}
Keeps (turns dead failure deadline w h) = Unit {0}
Keeps (gives_up w h) = Unit {0}
Keeps (releases scope ticket) = Unit {0}
Keeps (rolls_back scope s operation e h) = Unit {0}
Keeps (dispatches failure scope s e h) = Unit {0}
Keeps (reads_headers used scope s e h) = Unit {0}
Keeps (updates_catalog windows scope s h) = NoLower s.windows windows
Keeps (cools_down scope until) = Unit {0}

-- No catalog in the run lowers a limit or adds a window.
unfoldable pub Steady :
    {c : Controller} {start : Time} {c' : Controller} {now : Time} → Reach c start c' now → Type 0
unfolding Keeps
Steady begins = Unit {0}
Steady (continues before later s) = Steady before × Keeps s

-- The sum over the lanes below n.
unfoldable pub sum : ℕ → (ℕ → ℕ) → ℕ
sum zero f = 0
sum (suc n) f = sum n f + f n

sum_same : (n : ℕ) (f g : ℕ → ℕ) → ((j : ℕ) → j < n → f j ≡ g j) → sum n f ≡ sum n g
unfolding sum
sum_same zero f g h = refl
sum_same (suc n) f g h = omega (arith, sum_same n f g (λ j k. h j (omega arith)), h n (omega arith))

pub sum_change :
    (n i : ℕ) (f g : ℕ → ℕ)
    → i < n
    → ((j : ℕ) → i == j ≡ false → f j ≡ g j)
    → sum n f + g i ≡ sum n g + f i
unfolding sum
sum_change zero i f g l h = omega arith
sum_change (suc n) i f g l h = elim (Bool-cases (i == n)) [
  | inl last ↦
      let same_index : i ≡ n = ground arith in
      rw same_index (omega (arith, sum_same n f g (λ j k. h j (ground arith))))
  | inr earlier ↦ omega (arith, sum_change n i f g (ground arith) h, h n earlier)
]
