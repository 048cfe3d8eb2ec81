-- ===== src/Domain/Timeframe/Remainder.antt =====
-- Go's signed remainder, corrected to be positive, takes a time back to the last multiple of the
-- slot length.
use native.Mathlib.Nat.{mod-lt, add-mul-mod_self_right, mod-add-div', div-eq_of_lt-le, mod-eq_of_lt}
use market_data.Prelude.{
  ℕ, ◌+◌, ◌-◌, ◌*◌, ◌/◌, ◌%◌, ◌≤◌, ◌<◌, ◌≡◌, sym, ◌∙◌, arith, if◌then◌else◌, leb, ltb, dec_le,
  dec_lt,
}
use market_data.Prelude.Int.{pos, sub_ℕ, ◌+ℤ◌}
use market_data.Domain.Timeframe.{floor_remainder}

-- How far s lies past the last number that leaves the remainder of a.
unfoldable pub past : ℕ → ℕ → ℕ → ℕ
past n a s = if leb a s then (s - a) % n else (let m = (a - s) % n in if ltb 0 m then n - m else 0)

pub floor_remainder-sub : (n a s : ℕ) → 0 < n → floor_remainder n (sub_ℕ s a) ≡ pos (past n a s)
unfolding floor_remainder past ◌+ℤ◌
floor_remainder-sub n a s h = ground (arith, mod-lt (s - a) h, mod-lt (a - s) h)

pub past-lt : (n a s : ℕ) → 0 < n → past n a s < n
unfolding past
past-lt n a s h = ground (arith, mod-lt (s - a) h, mod-lt (a - s) h)

mod_of_eq : (x y q n : ℕ) → y ≡ x + q * n → y % n ≡ x % n
mod_of_eq x y q n e = rw e (add-mul-mod_self_right x q n)

past-above : (n a s : ℕ) → a ≤ s → (s - past n a s) % n ≡ a % n
unfolding past
past-above n a s h = mod_of_eq a _ ((s - a) / n) n (ground (arith, mod-add-div' (s - a) n))

past-below : (n a s : ℕ) → 0 < n → n ≤ s → s < a → (s - past n a s) % n ≡ a % n
unfolding past
past-below n a s h le lt = elim (dec_lt 0 ((a - s) % n)) [
  | yes some_left ↦
      sym (
        mod_of_eq _ a ((a - s) / n + 1) n
          (ground (arith, mod-add-div' (a - s) n, mod-lt (a - s) h)))
  | no none_left ↦ sym (mod_of_eq _ a ((a - s) / n) n (ground (arith, mod-add-div' (a - s) n)))
]

-- What is left then is congruent to a.
pub past_congruent : (n a s : ℕ) → 0 < n → n ≤ s → (s - past n a s) % n ≡ a % n
past_congruent n a s h le = elim (dec_le a s) [
  | yes above ↦ past-above n a s above
  | no below ↦ past-below n a s h le (omega arith)
]

-- The multiples of n, moved by p, before s.
pub multiple_unique :
    (n p s r : ℕ)
    → r < n
    → r ≤ s
    → p ≤ s - r
    → (s - r) % n ≡ p % n
    → p < n
    → s - r ≡ (s - p) / n * n + p
multiple_unique n p s r h le pl c pn =
    let b = s - r in
    let split = mod-add-div' b n in
    let left : b % n ≡ p = c ∙ mod-eq_of_lt pn in
    let k : (s - p) / n ≡ b / n = div-eq_of_lt-le n (omega arith) (omega arith) in
    rw k (omega arith)
