-- ===== src/Transport/Fit.antt =====
-- The cap on the encoded rows in internal/transport/grpc/conversion.go.
use market_data.Prelude.{
  ℕ, suc, ◌+◌, ◌-◌, ◌≤◌, ◌≡◌, refl, arith, true, ltb, if◌then◌else◌, if_cases, Option, none, some,
  List, [], ◌∷◌, length, is_some, ◌⊎◌, inl, inr,
}
use market_data.Errors.{Error, Result, err, ok}
use market_data.Application.Context.{Context}
use market_data.Transport.{Failure, of_error, response_too_large}
use market_data.Transport.Rows.{row_size, before_rows, convert_from, convert_rows}

module _ {D P : Type 0} (encoded_size : P → ℕ) (varint_size : ℕ → ℕ) (convert : D → Result P) where
  -- The encoded size of messages in their parent.
  unfoldable pub total_size : List P → ℕ
  total_size [] = 0
  total_size (message ∷ messages) = row_size encoded_size varint_size message + total_size messages

  -- The messages are those of the first rows, in their order.
  abbrev pub Prefixed : List D → List P → Type 0
  Prefixed rows [] = Unit
  Prefixed [] (message ∷ messages) = ⊥
  Prefixed (row ∷ rows) (message ∷ messages) = (convert row ≡ ok message) × Prefixed rows messages

  -- What a conversion may leave: messages of the first rows that fit, and of all rows unless it
  -- failed.
  abbrev pub Sound : List D → ℕ → Option Failure × List P → Type 0
  Sound rows room r =
      (total_size r.1 ≤ room)
      × Prefixed rows r.1
      × ((is_some r.0 ≡ true) ⊎ (length r.1 ≡ length rows))

  before_rows-Sound :
      (row : D) (rows : List D) (maximum size : ℕ) (message : P) (r : Option Failure × List P)
      → convert row ≡ ok message
      → size + row_size encoded_size varint_size message ≤ maximum
      → Sound rows (maximum - (size + row_size encoded_size varint_size message)) r
      → Sound (row ∷ rows) (maximum - size) (before_rows message r)
  unfolding total_size
  before_rows-Sound row rows maximum size message (failure, messages) made room
        (fits, prefix, all) =
      (omega arith, (made, prefix), ground arith)

  convert_from-Sound :
      (ctx : Context) (n : ℕ) (rows : List D) (maximum size : ℕ)
      → size ≤ maximum
      → Sound rows
          (maximum - size)
          (convert_from encoded_size varint_size convert ctx n rows maximum size)
  unfolding convert_from total_size
  convert_from-Sound ctx n [] maximum size h = (omega arith, tt, inr refl)
  convert_from-Sound ctx n (row ∷ rows) maximum size h =
      alive
        (λ message room.
          convert_from-Sound ctx (suc n) rows maximum
            (size + row_size encoded_size varint_size message) room)
        (ctx n)
    where
      of_result : Result P → Option Failure × List P
      of_result r = elim r as (λ x. Option Failure × List P) [
        | err e ↦ (some (of_error e), [])
        | ok message ↦
            if ltb (maximum - size) (row_size encoded_size varint_size message)
            then (some response_too_large, [])
            else before_rows message (
                convert_from encoded_size varint_size convert ctx (suc n) rows maximum
                  (size + row_size encoded_size varint_size message))
      ]

      step : Option Error → Option Failure × List P
      step o = elim o as (λ x. Option Failure × List P) [
        | some e ↦ (some (of_error e), [])
        | none ↦ of_result (convert row)
      ]

      Later : Type 0
      Later =
          (message : P)
          → size + row_size encoded_size varint_size message ≤ maximum
          → Sound rows (maximum - (size + row_size encoded_size varint_size message)) (
              convert_from encoded_size varint_size convert ctx (suc n) rows maximum
                (size + row_size encoded_size varint_size message))

      converted :
          Later
          → (r : Result P) → convert row ≡ r
          → Sound (row ∷ rows) (maximum - size) (of_result r)
      converted later (err e) made = (omega arith, tt, inl refl)
      converted later (ok message) made =
          if_cases (λ (r : Option Failure × List P). Sound (row ∷ rows) (maximum - size) r)
            (ltb (maximum - size) (row_size encoded_size varint_size message))
            (λ over. (omega arith, tt, inl refl))
            (λ fits.
              let room : size + row_size encoded_size varint_size message ≤ maximum =
                ground arith in
              before_rows-Sound row rows maximum size message _ made room (later message room))

      alive : Later → (o : Option Error) → Sound (row ∷ rows) (maximum - size) (step o)
      alive later (some e) = (omega arith, tt, inl refl)
      alive later none = converted later (convert row) refl

  -- `convertRows` never appends more than the room that the message has: the encoded rows fit in
  -- what the cap leaves. They are those of the first rows, in their order, and of all rows unless
  -- the conversion returns an error.
  pub convert_rows-Sound :
      (ctx : Context) (rows : List D) (maximum size : ℕ)
      → Sound rows
          (maximum - size)
          (convert_rows encoded_size varint_size convert ctx rows maximum size)
  unfolding convert_rows total_size
  convert_rows-Sound ctx rows maximum size =
      if_cases (λ (r : Option Failure × List P). Sound rows (maximum - size) r) (ltb maximum size)
        (λ over. (omega arith, tt, inl refl))
        (λ fits. convert_from-Sound ctx 0 rows maximum size (ground arith))
