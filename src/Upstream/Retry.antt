-- ===== src/Upstream/Retry.antt =====
-- internal/infrastructure/exchange/upstream/retry.go: the back-off of failed cycles. The jitter
-- is a parameter of the code too; what it returns may be negative.
use native.Mathlib.Nat.{mul-le-mul_left, mul_assoc}
use market_data.Prelude.{
  ℕ, zero, suc, ◌+◌, ◌-◌, ◌*◌, ◌/◌, ◌^◌, ◌≤◌, ◌≡◌, refl, sym, ap, ◌∙◌, arith, min, max, Bool, true,
  false, ltb, if◌then◌else◌, if_cases, Bool-cases, inl, inr,
}
use market_data.Prelude.Int.{ℤ, pos, pos_part}
use market_data.Domain.Time.{Time}
use market_data.Config.{Retry}

-- The loop, with the rounds that are left: `failures - 1` at first.
unfoldable pub double_ceiling : ℕ → ℕ → ℕ → ℕ
double_ceiling zero maximum ceiling = ceiling
double_ceiling (suc rounds) maximum ceiling =
    let next =
      double_ceiling rounds maximum (if ltb (maximum / 2) ceiling then maximum else ceiling * 2) in
    if ltb ceiling maximum then next else ceiling

abbrev pub ceiling_of : Retry → ℕ → ℕ
ceiling_of settings failures =
    double_ceiling (failures - 1) settings.max_backoff
      (min settings.initial_backoff settings.max_backoff)

unfoldable pub backoff : Retry → ℕ → (ℕ → ℤ) → ℕ
unfolding double_ceiling
backoff settings failures jitter =
    let ceiling = ceiling_of settings failures in min ceiling (pos_part (jitter ceiling))

-- What `complete` changes of a `CycleGate`.
pub record CycleGate : Type 0 where
  pub retry : Retry
  pub interval : ℕ
  pub failures : ℕ
  pub next : Time

unfoldable pub complete_cycle : (ℕ → ℤ) → Time → Bool → CycleGate → CycleGate
unfolding backoff
complete_cycle jitter now true g = record g { failures = 0; next = now + g.interval }
complete_cycle jitter now false g =
    let failures = min (g.failures + 1) 64 in
    record g { failures = failures; next = now + max g.interval (backoff g.retry failures jitter) }

pow_zero : 2 ^ 0 ≡ 1
pow_zero = refl

pow_suc : (n : ℕ) → 2 ^ suc n ≡ 2 * 2 ^ n
pow_suc n = omega arith

pow_pos : (n : ℕ) → 1 ≤ 2 ^ n
pow_pos zero = omega arith
pow_pos (suc n) = omega (arith, pow_pos n, pow_suc n)

scaled : (a p : ℕ) → 1 ≤ p → a ≤ a * p
scaled a p h = omega (arith, mul-le-mul_left {m = 1} {n = p} a h)

doubled : (a n : ℕ) → a * 2 ^ suc n ≡ a * 2 * 2 ^ n
doubled a n = ap (λ x. a * x) (pow_suc n) ∙ sym (mul_assoc a 2 (2 ^ n))

next_bound :
    (maximum ceiling : ℕ) → (if ltb (maximum / 2) ceiling then maximum else ceiling * 2) ≤ maximum
next_bound maximum ceiling = ground arith

above_half : (maximum ceiling : ℕ) → ltb (maximum / 2) ceiling ≡ true → maximum ≤ ceiling * 2
above_half maximum ceiling h = ground arith

top_eq : (ceiling maximum : ℕ) → ceiling ≤ maximum → ltb ceiling maximum ≡ false → ceiling ≡ maximum
top_eq ceiling maximum h t = ground arith

-- The ceiling doubles up to the maximum, although no product above the maximum is computed.
double_ceiling-min :
    (rounds maximum ceiling : ℕ)
    → ceiling ≤ maximum
    → double_ceiling rounds maximum ceiling ≡ min maximum (ceiling * 2 ^ rounds)
unfolding double_ceiling
double_ceiling-min zero maximum ceiling h = omega (arith, pow_zero)
double_ceiling-min (suc rounds) maximum ceiling h =
    if_cases (λ n. n ≡ min maximum (ceiling * 2 ^ suc rounds)) (ltb ceiling maximum)
      (λ below.
        double_ceiling-min rounds maximum
          (if ltb (maximum / 2) ceiling then maximum else ceiling * 2) (next_bound maximum ceiling)
        ∙ if_cases (λ n. min maximum (n * 2 ^ rounds) ≡ min maximum (ceiling * 2 ^ suc rounds))
            (ltb (maximum / 2) ceiling)
            (λ large. omega (
              arith,
              scaled maximum (2 ^ rounds) (pow_pos rounds),
              scaled (ceiling * 2) (2 ^ rounds) (pow_pos rounds),
              doubled ceiling rounds,
              above_half maximum ceiling large,
            ))
            (λ small. omega (arith, doubled ceiling rounds)))
      (λ top. omega (
        arith,
        scaled ceiling (2 ^ suc rounds) (pow_pos (suc rounds)),
        top_eq ceiling maximum h top,
      ))

capped : (i m p : ℕ) → 1 ≤ p → min m (min i m * p) ≡ min m (i * p)
capped i m p h = elim (Bool-cases (ltb m i)) [
  | inl above ↦
      let cut : min i m ≡ m = ground (arith, above) in
      rw cut (ground (arith, above, scaled m p h, scaled i p h))
  | inr below ↦ let whole : min i m ≡ i = ground (arith, below) in rw whole refl
]

-- The delay after failures is at most the initial back-off doubled for every failure but the
-- first, and at most the maximal one, whatever the jitter; with a jitter that returns its ceiling
-- it is that.
pub backoff-min :
    (settings : Retry) (failures : ℕ) (jitter : ℕ → ℤ)
    → (backoff settings failures jitter
        ≤ min settings.max_backoff (settings.initial_backoff * 2 ^ (failures - 1)))
      × (backoff settings failures pos
          ≡ min settings.max_backoff (settings.initial_backoff * 2 ^ (failures - 1)))
unfolding backoff
backoff-min settings failures jitter =
    let closed =
      double_ceiling-min (failures - 1) settings.max_backoff
        (min settings.initial_backoff settings.max_backoff) (omega arith)
      ∙ capped settings.initial_backoff settings.max_backoff (2 ^ (failures - 1))
          (pow_pos (failures - 1)) in
    (omega (arith, closed), omega (arith, closed))
