-- ===== src/Normalization.antt =====
-- internal/infrastructure/exchange/normalization: the numbers and fields of upstream rows
-- (instrument.go, current.go). Packages encoding/json, strconv and shopspring/decimal are
-- parameters; a raw message is its bytes, and a field that a row lacks is empty.
pub mod Current
pub mod Candles
pub mod Ordered
pub mod Pages
pub mod Printed
mod Tests
use market_data.Prelude.{
  ℕ, suc, ◌+◌, ◌*◌, ◌/◌, max, Bool, true, false, not, ◌&&◌, ◌||◌, leb, ltb, ◌==◌, if◌then◌else◌,
  Option, none, some, List, [], ◌∷◌, length, is_some,
}
use market_data.Prelude.Int.{ℤ, pos, negsuc, ltb_ℤ, pos_part}
use market_data.Prelude.Map.{Map, get}
use market_data.Prelude.Text.{bytes, same_text, Text-discrete}
use market_data.Errors.{Result, err, ok, ◌>>=◌, ◌>>◌, guard, invalid_upstream_data}
use market_data.Domain.Market.{Text}
use market_data.Domain.Snapshot.{Instrument}
use market_data.Domain.Time.{Time, second, unix_epoch, year, absolute_year_one}

-- `json.Unmarshal` into a string, a number and an int64, `strconv.ParseInt(s, 10, 64)`, and what
-- is used of decimals. `digits` is the length of the coefficient without its sign, which
-- `NumDigits` counts.
pub record Decoding (D : Type 0) : Type 0 where
  pub json_text : Text → Option Text
  pub json_number : Text → Option Text
  pub json_integer : Text → Option ℤ
  pub parse_int : Text → Option ℤ
  pub parse_decimal : Text → Option D
  pub is_negative : D → Bool
  pub is_positive : D → Bool
  pub is_zero : D → Bool
  pub digits : D → ℕ
  pub exponent : D → ℤ
  pub negate : D → D
  pub subtract : D → D → D
  pub greater : D → D → Bool

abbrev pub Row : Type 0
Row = Map Text Text

abbrev pub max_decimal_characters : ℕ
max_decimal_characters = 1024

-- `Invalid`: the name of the field is text.
abbrev pub invalid {ℓ} : {A : Type ℓ} → Result A
invalid = err invalid_upstream_data

abbrev pub valid_if {ℓ} : {A : Type ℓ} → Option A → Result A
valid_if none = invalid
valid_if (some x) = ok x

abbrev pub is_empty : Text → Bool
is_empty [] = true
is_empty _ = false

abbrev pub raw_of : Option Text → Text
raw_of none = []
raw_of (some raw) = raw

unfoldable pub raw : Row → Text → Text
unfolding Text-discrete
raw row key = raw_of (get Text-discrete key row)

abbrev pub starts_with : ℕ → Text → Bool
starts_with b [] = false
starts_with b (a ∷ rest) = a == b

-- `time.UnixMilli(n)` of a number that is not negative.
abbrev pub unix_milli : ℕ → Time
unix_milli n = unix_epoch * second + n * 1_000_000

abbrev pub characters : ℕ → ℤ → ℕ
characters digits (negsuc n) = max (digits + 1) (2 + suc n)
characters digits (pos n) = digits + n

module _ {D : Type 0} (lib : Decoding D) where
  unfoldable pub text : Row → Text → Result Text
  unfolding raw
  text row key =
      let source = raw row key in
      if is_empty source || same_text source (bytes "null")
      then ok []
      else if starts_with 34 source
      then valid_if (lib.json_text source)
      else valid_if (lib.json_number source)

  abbrev filled : Text → Result Text
  filled [] = invalid
  filled symbol = ok symbol

  unfoldable pub symbol : Row → Result Text
  unfolding raw
  symbol row = valid_if (lib.json_text (raw row (bytes "symbol"))) >>= filled

  abbrev pub decimal_characters : D → ℕ
  decimal_characters value = characters (lib.digits value) (lib.exponent value)

  -- `Limit`: the empty text has no value.
  unfoldable pub limit : Text → Result (Option D)
  limit [] = ok none
  limit value = do
    guard (leb (length value) max_decimal_characters) invalid_upstream_data
    parsed ← valid_if (lib.parse_decimal value)
    guard (not (lib.is_negative parsed)) invalid_upstream_data
    guard (leb (decimal_characters parsed) max_decimal_characters) invalid_upstream_data
    ok (some parsed)

  abbrev pub negated : Option D → Result (Option D)
  negated none = ok none
  negated (some value) = do
    guard (leb (decimal_characters value + 1) max_decimal_characters) invalid_upstream_data
    ok (some (lib.negate value))

  abbrev signed_rest : ℕ → Text → Result (Option D)
  signed_rest b magnitude =
      if b == 45
      then (do
        guard (not (is_empty magnitude || starts_with 43 magnitude || starts_with 45 magnitude))
            invalid_upstream_data
        parsed ← limit magnitude
        negated parsed)
      else limit (b ∷ magnitude)

  unfoldable pub signed_decimal : Text → Result (Option D)
  unfolding limit
  signed_decimal [] = ok none
  signed_decimal (b ∷ magnitude) = do
    guard (leb (suc (length magnitude)) max_decimal_characters) invalid_upstream_data
    signed_rest b magnitude

  -- Any error of the number is that of the field.
  abbrev pub found : Bool → Result (Option D) → Result (Option D)
  found required (err e) = invalid
  found true (ok none) = invalid
  found required (ok value) = ok value

  unfoldable pub decimal : Row → Text → Bool → Bool → Result (Option D)
  unfolding text limit signed_decimal
  decimal row key required signed = text row key >>= λ value.
      found required (if signed then signed_decimal value else limit value)

  -- A required decimal, which has a value.
  abbrev pub required_value : Option D → Result D
  required_value none = invalid
  required_value (some value) = ok value

  abbrev pub required_decimal : Row → Text → Result D
  required_decimal row key = decimal row key true false >>= required_value

  abbrev positive : Option D → Result D
  positive none = invalid
  positive (some value) = if lib.is_positive value then ok value else invalid

  unfoldable pub step : Text → Result D
  unfolding limit
  step value = limit value >>= positive

  abbrev inverted : Option D → Option D → Bool
  inverted (some low) (some high) = lib.greater low high
  inverted _ _ = false

  unfoldable pub validate_instrument : Instrument D → Result (Unit {0})
  validate_instrument row = do
    guard (not (is_empty row.symbol || is_empty row.base_asset || is_empty row.quote_asset))
        invalid_upstream_data
    guard (not (inverted row.min_qty row.max_qty)) invalid_upstream_data

  -- `Duration`, for a unit that is positive.
  abbrev pub max_int64 : ℕ
  max_int64 = 9223372036854775807

  abbrev duration_of : ℕ → ℤ → Result (Option ℕ)
  duration_of unit (negsuc n) = invalid
  duration_of unit (pos n) =
      if leb n 0 || ltb (max_int64 / unit) n then invalid else ok (some (n * unit))

  unfoldable pub duration : Text → ℕ → Result (Option ℕ)
  duration [] unit = ok none
  duration value unit = valid_if (lib.parse_int value) >>= duration_of unit

  abbrev delivery_of : ℤ → Result (Option Time)
  delivery_of (negsuc n) = invalid
  delivery_of (pos n) =
      if n == 0
      then ok none
      else if ltb (absolute_year_one + 9998) (year (unix_milli n))
      then invalid
      else ok (some (unix_milli n))

  unfoldable pub delisting : Text → Result (Option Time)
  unfolding year
  delisting [] = ok none
  delisting value = valid_if (lib.parse_int value) >>= delivery_of
