-- ===== src/Transport/Rows.antt =====
-- internal/transport/grpc/conversion.go: the conversion of rows under the cap on the encoded
-- message, of times, of decimals, of candles and of statistics. `encoded_size` is `proto.Size`,
-- `varint_size` is `protowire.SizeVarint`, `valid_time` is `CheckValid` of a timestamp, `print`
-- is `String` of a decimal.
use market_data.Prelude.{
  ℕ, suc, ◌+◌, ◌-◌, Bool, not, ◌||◌, leb, ltb, if◌then◌else◌, Option, none, some, List, [], ◌∷◌,
}
use market_data.Prelude.Int.{ℤ, pos, negsuc, ltb_ℤ}
use market_data.Errors.{Error, Result, err, ok, ◌>>=◌, ◌>>◌, guard, internal}
use market_data.Domain.Market.{Text, Kline}
use market_data.Domain.Time.{Time, is_zero, unix}
use market_data.Application.Context.{Context}
use market_data.Normalization.{Decoding}
use market_data.Transport.{Failure, of_error, response_too_large}

-- The size of a row in its message: its own, the size's prefix and the tag.
abbrev pub row_size : {P : Type 0} → (P → ℕ) → (ℕ → ℕ) → P → ℕ
row_size encoded_size varint_size message =
    encoded_size message + (1 + varint_size (encoded_size message))

-- An error beside the messages that were appended before it.
abbrev pub before_rows : {P : Type 0} → P → Option Failure × List P → Option Failure × List P
before_rows message (failure, messages) = (failure, message ∷ messages)

abbrev pub failed_with : Option Error → Option Failure
failed_with none = none
failed_with (some e) = some (of_error e)

module _ {D P : Type 0} (encoded_size : P → ℕ) (varint_size : ℕ → ℕ) (convert : D → Result P) where
  -- The loop from the n-th check of the context on, and the last check.
  unfoldable pub convert_from : Context → ℕ → List D → ℕ → ℕ → Option Failure × List P
  convert_from ctx n [] maximum size = (failed_with (ctx n), [])
  convert_from ctx n (row ∷ rows) maximum size = elim (ctx n) [
    | some e ↦ (some (of_error e), [])
    | none ↦ elim (convert row) [
      | err e ↦ (some (of_error e), [])
      | ok message ↦
          let rest =
            convert_from ctx (suc n) rows maximum
              (size + row_size encoded_size varint_size message) in
          if ltb (maximum - size) (row_size encoded_size varint_size message)
          then (some response_too_large, [])
          else before_rows message rest
    ]
  ]

  unfoldable pub convert_rows : Context → List D → ℕ → ℕ → Option Failure × List P
  unfolding convert_from
  convert_rows ctx rows maximum size =
      if ltb maximum size
      then (some response_too_large, [])
      else convert_from ctx 0 rows maximum size

unfoldable pub timestamp : (Time → Bool) → Time → Result Time
unfolding unix
timestamp valid_time t = do
  guard (not (is_zero t || not (valid_time t) || ltb_ℤ (unix t) (pos 0))) internal
  ok t

-- The length of a decimal without its sign.
abbrev pub printed_length : ℕ → ℤ → ℕ
printed_length digits (negsuc n) = if leb digits (suc n) then 2 + suc n else digits + 1
printed_length digits (pos n) = digits + n

pub record KlineMessage : Type 0 where
  pub open_time : Time
  pub close_time : Time
  pub fetched_at : Time
  pub open_price : Text
  pub high : Text
  pub low : Text
  pub close_price : Text
  pub volume : Text
  pub turnover : Text
  pub trades_count : Option ℕ

module _ {D : Type 0} (lib : Decoding D) (print : D → Text) where
  unfoldable pub decimal_text : D → Result Text
  decimal_text value = do
    guard
        (leb
          (printed_length (lib.digits value) (lib.exponent value)
            + (if lib.is_negative value then 1 else 0))
          1024)
        internal
    ok (print value)

  unfoldable pub optional_decimal : Option D → Result (Option Text)
  unfolding decimal_text
  optional_decimal none = ok none
  optional_decimal (some value) = decimal_text value >>= λ t. ok (some t)

  unfoldable pub kline_message : (Time → Bool) → Kline D → Result KlineMessage
  unfolding timestamp decimal_text
  kline_message valid_time row = do
    open_time ← timestamp valid_time row.open_time
    close_time ← timestamp valid_time row.close_time
    fetched_at ← timestamp valid_time row.fetched_at
    open_price ← decimal_text row.open_price
    high ← decimal_text row.high
    low ← decimal_text row.low
    close_price ← decimal_text row.close_price
    volume ← decimal_text row.volume
    turnover ← decimal_text row.turnover
    ok (record {
      open_time = open_time;
      close_time = close_time;
      fetched_at = fetched_at;
      open_price = open_price;
      high = high;
      low = low;
      close_price = close_price;
      volume = volume;
      turnover = turnover;
      trades_count = row.trades_count;
    })
