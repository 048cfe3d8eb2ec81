-- ===== src/Domain/Grid.antt =====
-- What a calendar promises: a strictly increasing sequence of boundaries, and for each time the
-- number of the slot that holds it.
use native.Mathlib.Nat.{le_refl}
use native.Mathlib.Decide.{le_ind}
use market_data.Prelude.{ℕ, suc, ◌≤◌, ◌<◌, ◌≡◌, arith, dec_lt}

pub record Grid : Type 0 where
  pub slot : ℕ → ℕ
  pub index : ℕ → ℕ
  pub slot_step : (k : ℕ) → slot k < slot (suc k)
  pub index_lower : (t : ℕ) → slot 0 ≤ t → slot (index t) ≤ t
  pub index_upper : (t : ℕ) → slot 0 ≤ t → t < slot (suc (index t))

module _ (g : Grid) where
  open g use {slot, index, slot_step, index_lower, index_upper}

  pub slot_mono : (i j : ℕ) → i ≤ j → slot i ≤ slot j
  slot_mono i j =
      le_ind (λ m. slot i ≤ slot m) (le_refl _) (λ m le ih. omega (arith, slot_step m)) j

  pub slot_strict : (i j : ℕ) → i < j → slot i < slot j
  slot_strict i j h = omega (arith, slot_step i, slot_mono (suc i) j h)

  -- Boundaries are told apart, and kept in order, by their numbers.
  pub slot-lt : (i j : ℕ) → slot i < slot j → i < j
  slot-lt i j h = elim (dec_lt i j) [
    | yes lt ↦ lt
    | no ge ↦ absurd (omega (arith, slot_mono j i (omega arith)))
  ]

  pub slot-le : (i j : ℕ) → slot i ≤ slot j → i ≤ j
  slot-le i j h = elim (dec_lt j i) [
    | yes lt ↦ absurd (omega (arith, slot_strict j i lt))
    | no ge ↦ omega arith
  ]

  pub slot_injective : (i j : ℕ) → slot i ≡ slot j → i ≡ j
  slot_injective i j h = elim (dec_lt i j) [
    | yes lt ↦ absurd (omega (arith, slot_strict i j lt))
    | no ge ↦ elim (dec_lt j i) [
      | yes gt ↦ absurd (omega (arith, slot_strict j i gt))
      | no le ↦ omega arith
    ]
  ]

  pub index_unique : (k t : ℕ) → slot k ≤ t → t < slot (suc k) → index t ≡ k
  index_unique k t h l =
      let from = slot_mono 0 k (omega arith) in
      let lower = index_lower t (omega arith) in
      let upper = index_upper t (omega arith) in
      omega
        (arith, slot-lt k (suc (index t)) (omega arith), slot-lt (index t) (suc k) (omega arith))

  pub index_mono : (s t : ℕ) → slot 0 ≤ s → s ≤ t → index s ≤ index t
  index_mono s t z h =
      let lower = index_lower s z in
      let upper = index_upper t (omega arith) in
      omega (arith, slot-lt (index s) (suc (index t)) (omega arith))

  pub index-slot : (k : ℕ) → index (slot k) ≡ k
  index-slot k = index_unique k (slot k) (omega arith) (slot_step k)
