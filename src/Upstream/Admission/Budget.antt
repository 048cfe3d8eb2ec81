-- ===== src/Upstream/Admission/Budget.antt =====
-- The share of a window that an operation may use (`ready` of
-- internal/infrastructure/exchange/upstream/controller.go), of one scope.
use market_data.Prelude.{
  ℕ, ◌+◌, ◌≤◌, ◌≡◌, arith, Bool, true, false, ◌==◌, if◌then◌else◌, List, [], ◌∷◌, All,
}
use market_data.Domain.Time.{Time, zero_time}
use market_data.Upstream.{
  Operation, at, Window, Cost, Entry, ScopeState, max_int, percent, window_cost, max_time,
}
use market_data.Upstream.Percent.{percent-le}
use market_data.Upstream.Usage.{prune_observations, prune_history, prune}
use market_data.Upstream.Spent.{spent, spent-append, same_operation, usage-spent}
use market_data.Upstream.Admission.{reserve}
use market_data.Upstream.Admission.Queue.{land}
use market_data.Upstream.Admission.Fits.{admits}

module _ (k : Bool) (w : Window) (op : Operation) where
  spent-prune_history :
      (now cutoff : Time) (es : List Entry)
      → spent k w now op (prune_history now cutoff es) ≤ spent k w now op es
  unfolding spent prune_history prune_observations
  spent-prune_history now cutoff [] = omega arith
  spent-prune_history now cutoff (e ∷ es) = ground (arith, spent-prune_history now cutoff es)

  spent_later :
      (now later : Time) (es : List Entry)
      → now ≤ later
      → spent k w later op es ≤ spent k w now op es
  unfolding spent
  spent_later now later [] h = omega arith
  spent_later now later (e ∷ es) h = ground (arith, spent_later now later es h)

  spent-land :
      (now : Time) (ticket : ℕ) (es : List Entry)
      → spent k w now op (land ticket es) ≤ spent k w now op es
  unfolding spent land
  spent-land now ticket [] = omega arith
  spent-land now ticket (e ∷ es) = ground (arith, spent-land now ticket es)

-- The share of the operation has room for the request.
abbrev pub Room : Cost → Time → ScopeState → Window → Type 0
Room c now s w =
    w.split ≡ true
    → window_cost w c == 0 ≡ false
    → spent s.keep_inflight w now c.operation s.history + window_cost w c
      ≤ percent w.limit (at s.shares c.operation)

-- No operation has used more of a split window than its share.
abbrev pub Within : Time → ScopeState → Window → Type 0
Within now s w =
    w.split ≡ true
    → (op : Operation) → spent s.keep_inflight w now op s.history ≤ percent w.limit (at s.shares op)

-- The limits are ints, and the shares percentages.
pub record Sound (s : ScopeState) : Type 0 where
  pub limits : All (λ entry. entry.1.limit ≤ max_int) s.windows
  pub shares : (op : Operation) → at s.shares op ≤ 100

pub record Budgeted (now : Time) (s : ScopeState) : Type 0 where
  pub sound : Sound s
  pub within : All (λ entry. Within now s entry.1) s.windows

pub All-map {ℓ κ μ} :
    {A : Type ℓ} {P : A → Type κ} {Q : A → Type μ}
    → ((a : A) → P a → Q a)
    → (xs : List A) → All P xs
    → All Q xs
All-map f [] h = tt
All-map f (x ∷ xs) (h, k) = (f x h, All-map f xs k)

All-both {ℓ κ μ ν} :
    {A : Type ℓ} {P : A → Type κ} {Q : A → Type μ} {R : A → Type ν}
    → ((a : A) → P a → Q a → R a)
    → (xs : List A) → All P xs
    → All Q xs
    → All R xs
All-both f [] h k = tt
All-both f (x ∷ xs) (h, hs) (k, ks) = (f x h k, All-both f xs hs ks)

admits-Room :
    (s : ScopeState) (c : Cost) (now : Time) (w : Window)
    → w.limit ≤ max_int
    → at s.shares c.operation ≤ 100
    → admits s c now w ≡ true
    → Room c now s w
admits-Room s c now w l p h split costs =
    ground (arith, usage-spent s w now c.operation, percent-le w.limit (at s.shares c.operation))

pub admits-All :
    (s : ScopeState) (c : Cost) (now : Time)
    → Sound s
    → All (λ entry. admits s c now entry.1 ≡ true) s.windows
    → All (λ entry. Room c now s entry.1) s.windows
admits-All s c now sound h =
    All-both (λ entry l k. admits-Room s c now entry.1 l (sound.shares c.operation) k) s.windows
      sound.limits h

pub prune-Room :
    (c : Cost) (now : Time) (s : ScopeState)
    → All (λ entry. Room c now s entry.1) s.windows
    → All (λ entry. Room c now (prune now s) entry.1) (prune now s).windows
unfolding prune
prune-Room c now s =
    All-map
      (λ entry room split costs. omega (
        arith,
        room split costs,
        spent-prune_history s.keep_inflight entry.1 c.operation now _ s.history,
      ))
      s.windows

pub prune-Budgeted : (now : Time) (s : ScopeState) → Budgeted now s → Budgeted now (prune now s)
unfolding prune
prune-Budgeted now s b = record {
  sound = record { limits = b.sound.limits; shares = b.sound.shares };
  within =
      All-map
        (λ entry h split op.
          omega (arith, h split op, spent-prune_history s.keep_inflight entry.1 op now _ s.history))
        s.windows b.within;
}

pub later-Budgeted :
    (now later : Time) (s : ScopeState) → now ≤ later → Budgeted now s → Budgeted later s
later-Budgeted now later s l b = record {
  sound = b.sound;
  within =
      All-map
        (λ entry h split op.
          omega (arith, h split op, spent_later s.keep_inflight entry.1 op now later s.history l))
        s.windows b.within;
}

pub land-Budgeted :
    (now : Time) (ticket : ℕ) (s : ScopeState)
    → Budgeted now s
    → Budgeted now (record s { history = land ticket s.history })
land-Budgeted now ticket s b = record {
  sound = record { limits = b.sound.limits; shares = b.sound.shares };
  within =
      All-map
        (λ entry h split op.
          omega (arith, h split op, spent-land s.keep_inflight entry.1 op now ticket s.history))
        s.windows b.within;
}

pub cool-Budgeted :
    (now until : Time) (s : ScopeState)
    → Budgeted now s
    → Budgeted now (record s { cooldown = max_time s.cooldown until })
cool-Budgeted now until s b = record {
  sound = record { limits = b.sound.limits; shares = b.sound.shares };
  within = b.within;
}

spent-reserve :
    (w : Window) (op : Operation) (now : Time) (ticket : ℕ) (c : Cost) (s : ScopeState)
    → spent s.keep_inflight w now op (reserve ticket c now s).history
      ≤ spent s.keep_inflight w now op s.history
        + (if same_operation c.operation op then window_cost w c else 0)
unfolding spent reserve
spent-reserve w op now ticket c s =
    let e : Entry = record {
      ticket = ticket;
      at = now;
      cost = c;
      received = zero_time;
      dispatched = false;
      inflight = true;
      observations = [];
    } in
    let whole : spent s.keep_inflight w now op (e ∷ [])
        ≤ (if same_operation c.operation op then window_cost w c else 0) =
      ground arith in
    omega (arith, spent-append s.keep_inflight w now op s.history (e ∷ []), whole)

same-operation : (a b : Operation) → same_operation a b ≡ true → a ≡ b
same-operation a b h = ground arith

pub reserve-Budgeted :
    (now : Time) (ticket : ℕ) (c : Cost) (s : ScopeState)
    → Budgeted now s
    → All (λ entry. Room c now s entry.1) s.windows
    → Budgeted now (reserve ticket c now s)
unfolding reserve
reserve-Budgeted now ticket c s b room = record {
  sound = record { limits = b.sound.limits; shares = b.sound.shares };
  within = All-both (λ entry h r split op. after_it entry.1 h r split op) s.windows b.within room;
}
  where
    after_it :
        (w : Window) → Within now s w → Room c now s w → Within now (reserve ticket c now s) w
    after_it w h r split op = ground (
      arith,
      spent-reserve w op now ticket c s,
      h split op,
      same-operation c.operation op,
      r split,
    )
