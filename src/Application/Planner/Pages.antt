-- ===== src/Application/Planner/Pages.antt =====
-- The loop of internal/application/kline/fetch_planner.go (`Planner.plan`) against a description of
-- the pages by slot numbers.
use market_data.Prelude.{
  ℕ, zero, suc, ◌+◌, ◌-◌, ◌≤◌, ◌≡◌, refl, subst, arith, Bool, true, false, Option, none, some, List,
  [], ◌∷◌,
}
use market_data.Domain.Time.{Time}
use market_data.Domain.Timeframe.{Calendar}
use market_data.Domain.Timeframe.Boundaries.{boundaries}
use market_data.Application.Series.{Query, Request}
use market_data.Application.Planner.Loading.{Page}

module _ (c : Calendar) (q : Query) (limit : ℕ) (done : Time → Bool) where
  -- The n slots from slot i on need no loading.
  unfoldable pub AllDone : ℕ → ℕ → Type 0
  AllDone i zero = Unit
  AllDone i (suc n) = (done ((boundaries c).slot i) ≡ true) × AllDone (suc i) n

  -- A request for the slots from slot a on, as many as its limit says: the first and the last of
  -- them need loading, and the limit is within the limit of a page.
  pub record IsPage (a : ℕ) (r : Request) : Type 0 where
    pub same_series : r.query.series ≡ q.series
    pub starts_at : r.query.from ≡ (boundaries c).slot a
    pub ends_at : r.query.to ≡ (boundaries c).slot (a + r.limit)
    pub lower : 1 ≤ r.limit
    pub upper : r.limit ≤ limit
    pub first_slot : done ((boundaries c).slot a) ≡ false
    pub last_slot : done ((boundaries c).slot (a + r.limit - 1)) ≡ false

  -- The requests load the slots from slot i up to slot j: each is a page after the one before it,
  -- and the slots of no page need no loading.
  unfoldable pub IsPlan : ℕ → ℕ → List Request → Type 0
  IsPlan i j [] = (i ≤ j) × AllDone i (j - i)
  IsPlan i j (r ∷ rs) =
      (a : ℕ) × (i ≤ a) × AllDone i (a - i) × IsPage a r × IsPlan (a + r.limit) j rs

  pub AllDone-cast : (i i' n n' : ℕ) → i ≡ i' → n ≡ n' → AllDone i n → AllDone i' n'
  AllDone-cast i i' n n' e f h = subst (λ x. AllDone x n') e (subst (AllDone i) f h)

  AllDone-append : (m i n : ℕ) → AllDone i m → AllDone (i + m) n → AllDone i (m + n)
  unfolding AllDone
  AllDone-append zero i n h k = AllDone-cast (i + 0) i n (0 + n) (omega arith) (omega arith) k
  AllDone-append (suc m) i n h k =
      let rest =
        AllDone-append m (suc i) n h.1
          (AllDone-cast (i + suc m) (suc i + m) n n (omega arith) refl k) in
      AllDone-cast i i (suc (m + n)) (suc m + n) refl (omega arith) (h.0, rest)

  pub span-append :
      (i m a : ℕ) → i ≤ m → m ≤ a → AllDone i (m - i) → AllDone m (a - m) → AllDone i (a - i)
  span-append i m a h k x y = AllDone-cast i i (m - i + (a - m)) (a - i) refl (omega arith) (
      AllDone-append (m - i) i (a - m) x
        (AllDone-cast m (i + (m - i)) (a - m) (a - m) (omega arith) refl y))

  pub no_span : (i : ℕ) → AllDone i (i - i)
  unfolding AllDone
  no_span i = AllDone-cast i i 0 (i - i) refl (omega arith) tt

  pub one_more :
      (i k : ℕ)
      → i ≤ k
      → AllDone i (k - i)
      → done ((boundaries c).slot k) ≡ true
      → AllDone i (suc k - i)
  unfolding AllDone
  one_more i k h x d =
      span-append i k (suc k) h (omega arith) x
        (AllDone-cast k k 1 (suc k - k) refl (omega arith) (d, tt))

  -- Slots that need no loading can be put before a plan.
  pub IsPlan-skip :
      (i m j : ℕ) (rs : List Request) → i ≤ m → AllDone i (m - i) → IsPlan m j rs → IsPlan i j rs
  unfolding IsPlan
  IsPlan-skip i m j [] h x (le, y) = (omega arith, span-append i m j h le x y)
  IsPlan-skip i m j (r ∷ rs) h x (a, le, y, page, rest) =
      (a, omega arith, span-append i m a h le x y, page, rest)

  -- The page under construction at slot k, where slot 0 of the loop is slot b.
  unfoldable pub IsPending : ℕ → ℕ → Option Page → Type 0
  IsPending b k none = Unit
  IsPending b k (some page) =
      let a = b + page.start in
      IsPage a page.request
      × (a + page.request.limit ≤ b + k)
      × AllDone (a + page.request.limit) (b + k - (a + page.request.limit))

  abbrev pub begins : ℕ → ℕ → Option Page → ℕ
  begins b k none = b + k
  begins b k (some page) = b + page.start
