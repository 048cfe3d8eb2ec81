-- ===== src/Normalization/Ordered.antt =====
-- What the candles of a page promise (internal/infrastructure/exchange/normalization/kline.go).
use market_data.Prelude.{
  suc, ◌≤◌, ◌<◌, ◌≡◌, refl, arith, true, leb, List, [], ◌∷◌, length, All, Bool-cases, inl, inr,
}
use market_data.Errors.{Error, Result, err, ok}
use market_data.Application.Series.{Stored}
use market_data.Storage.Klines.Read.{insert_by_time, sort_by_time}
use market_data.Storage.Klines.Range.{Ascending}
use market_data.Normalization.{Decoding}
use market_data.Normalization.Candles.{replaced, no_duplicates}

pub replaced-ok : {A : Type 0} (e : Error) (r : Result A) (x : A) → replaced e r ≡ ok x → r ≡ ok x
replaced-ok e (err f) x h = cc
replaced-ok e (ok y) x h = h

-- The order of a sorted list without equal neighbours.
module _ {D : Type 0} where
  module _ {κ} (P : Stored D → Type κ) where
    insert-All :
        (x : Stored D) (xs : List (Stored D)) → P x → All P xs → All P (insert_by_time x xs)
    unfolding insert_by_time
    insert-All x [] h k = (h, tt)
    insert-All x (y ∷ ys) h k = elim (Bool-cases (leb x.candle.open_time y.candle.open_time)) [
      | inl first ↦ rw first (h, k)
      | inr later ↦ rw later (k.0, insert-All x ys h k.1)
    ]

    pub sort-All : (xs : List (Stored D)) → All P xs → All P (sort_by_time xs)
    unfolding sort_by_time
    sort-All [] h = tt
    sort-All (x ∷ xs) h = insert-All x (sort_by_time xs) h.0 (sort-All xs h.1)

  length-insert :
      (x : Stored D) (xs : List (Stored D)) → length (insert_by_time x xs) ≡ suc (length xs)
  unfolding insert_by_time
  length-insert x [] = refl
  length-insert x (y ∷ ys) = ground (arith, length-insert x ys)

  pub length-sort : (xs : List (Stored D)) → length (sort_by_time xs) ≡ length xs
  unfolding sort_by_time
  length-sort [] = refl
  length-sort (x ∷ xs) = omega (arith, length-insert x (sort_by_time xs), length-sort xs)

  abbrev pub Rising : List (Stored D) → Type 0
  Rising [] = Unit
  Rising (x ∷ xs) = All (λ y. x.candle.open_time ≤ y.candle.open_time) xs × Rising xs

  All-map :
      (P Q : Stored D → Type 0) (xs : List (Stored D))
      → ((x : Stored D) → P x → Q x)
      → All P xs
      → All Q xs
  All-map P Q [] f h = tt
  All-map P Q (x ∷ xs) f h = (f x h.0, All-map P Q xs f h.1)

  insert-Rising : (x : Stored D) (xs : List (Stored D)) → Rising xs → Rising (insert_by_time x xs)
  unfolding insert_by_time
  insert-Rising x [] h = (tt, tt)
  insert-Rising x (y ∷ ys) h = elim (Bool-cases (leb x.candle.open_time y.candle.open_time)) [
    | inl first ↦
        let le : x.candle.open_time ≤ y.candle.open_time = ground arith in
        rw first (
          (
            le,
            All-map (λ z. y.candle.open_time ≤ z.candle.open_time)
                (λ z. x.candle.open_time ≤ z.candle.open_time) ys (λ z k. omega arith) h.0,
          ),
          h,
        )
    | inr later ↦
        let le : y.candle.open_time ≤ x.candle.open_time = ground arith in
        rw later (
          insert-All (λ z. y.candle.open_time ≤ z.candle.open_time) x ys le h.0,
          insert-Rising x ys h.1,
        )
  ]

  pub sort-Rising : (xs : List (Stored D)) → Rising (sort_by_time xs)
  unfolding sort_by_time
  sort-Rising [] = tt
  sort-Rising (x ∷ xs) = insert-Rising x (sort_by_time xs) (sort-Rising xs)

  pub Rising-Ascending :
      (lib : Decoding D) (xs : List (Stored D))
      → Rising xs
      → no_duplicates lib xs ≡ true
      → Ascending xs
  Rising-Ascending lib [] h k = tt
  Rising-Ascending lib (x ∷ []) h k = (tt, tt)
  Rising-Ascending lib (x ∷ (y ∷ rest)) h k =
      let apart : x.candle.open_time < y.candle.open_time = ground arith in
      let distinct : no_duplicates lib (y ∷ rest) ≡ true = ground arith in
      (
        (
          apart,
          All-map (λ z. y.candle.open_time ≤ z.candle.open_time)
              (λ z. x.candle.open_time < z.candle.open_time) rest (λ z l. omega arith) h.1.0,
        ),
        Rising-Ascending lib (y ∷ rest) h.1 distinct,
      )
