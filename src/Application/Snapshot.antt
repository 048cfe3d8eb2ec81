-- ===== src/Application/Snapshot.antt =====
-- internal/application/snapshot.go: the scopes and the symbol that a query selects. A field of the
-- query that is the empty string is `none`. Strings are bytes; the checks of packages unicode and
-- unicode/utf8 are written out.
use market_data.Prelude.{
  ℕ, zero, suc, ◌+◌, ◌-◌, ◌*◌, Bool, true, false, not, ◌&&◌, ◌||◌, leb, ltb, ◌==◌, if◌then◌else◌,
  Option, none, some, List, [], ◌∷◌, length, ite,
}
use market_data.Errors.{Result, ok, ◌>>◌, guard, invalid_filter}
use market_data.Domain.Names.{
  Exchange, Market, valid_exchange, valid_market, Exchange-discrete, Market-discrete,
}
use market_data.Domain.Market.{Text}
use market_data.Application.Series.{Scope}

pub record SnapshotQuery : Type 0 where
  pub exchange : Option Exchange
  pub market : Option Market
  pub symbol : Text

pub record SnapshotFilter : Type 0 where
  pub scopes : List Scope
  pub symbol : Option Text

abbrev within : ℕ → ℕ → ℕ → Bool
within low high b = leb low b && leb b high

-- Where the decoding of UTF-8 stands: between runes, or inside one, with the number of bytes after
-- the next, the bounds of the next byte, and the bits so far.
pub data Decoder : Type 0 where
  between : Decoder
  inside : ℕ → ℕ → ℕ → ℕ → Decoder

-- One byte: the rune that it completes, if any, and where the decoding goes on.
unfoldable pub decode_byte : Decoder → ℕ → Option (Option ℕ × Decoder)
decode_byte between b =
    if ltb b 128
    then some (some b, between)
    else if within 194 223 b
    then some (none, inside 0 128 191 (b - 192))
    else if b == 224
    then some (none, inside 1 160 191 0)
    else if b == 237
    then some (none, inside 1 128 159 13)
    else if within 225 239 b
    then some (none, inside 1 128 191 (b - 224))
    else if b == 240
    then some (none, inside 2 144 191 0)
    else if within 241 243 b
    then some (none, inside 2 128 191 (b - 240))
    else if b == 244
    then some (none, inside 2 128 143 4)
    else none
decode_byte (inside zero low high bits) b =
    if within low high b then some (some (bits * 64 + (b - 128)), between) else none
decode_byte (inside (suc n) low high bits) b =
    if within low high b then some (none, inside n 128 191 (bits * 64 + (b - 128))) else none

abbrev with_rune : Option ℕ → Option (List ℕ) → Option (List ℕ)
with_rune _ none = none
with_rune none (some rest) = some rest
with_rune (some r) (some rest) = some (r ∷ rest)

-- The runes of a string that is valid UTF-8.
unfoldable pub runes : Decoder → Text → Option (List ℕ)
unfolding decode_byte
runes between [] = some []
runes (inside n low high bits) [] = none
runes d (b ∷ rest) = elim (decode_byte d b) [
  | none ↦ none
  | some (r, d') ↦ with_rune r (runes d' rest)
]

-- `unicode.IsSpace(r) || unicode.IsControl(r)`.
abbrev is_space : ℕ → Bool
is_space r =
    within 9 13 r
    || r == 32
    || r == 133
    || r == 160
    || r == 5760
    || within 8192 8202 r
    || within 8232 8233 r
    || r == 8239
    || r == 8287
    || r == 12288

abbrev is_control : ℕ → Bool
is_control r = leb r 31 || within 127 159 r

abbrev no_space : List ℕ → Bool
no_space [] = true
no_space (r ∷ rs) = not (is_space r || is_control r) && no_space rs

abbrev valid_symbol : Option (List ℕ) → Bool
valid_symbol none = false
valid_symbol (some rs) = no_space rs

abbrev selects : SnapshotQuery → Scope → Bool
selects q scope = selects_exchange q.exchange && selects_market q.market
  where
    selects_exchange : Option Exchange → Bool
    selects_exchange none = true
    selects_exchange (some e) = ite (Exchange-discrete e scope.exchange) true false

    selects_market : Option Market → Bool
    selects_market none = true
    selects_market (some m) = ite (Market-discrete m scope.market) true false

unfoldable pub select_scopes : SnapshotQuery → List Scope → List Scope
unfolding Exchange-discrete Market-discrete
select_scopes q [] = []
select_scopes q (scope ∷ scopes) =
    let rest = select_scopes q scopes in if selects q scope then scope ∷ rest else rest

abbrev absent_or {ℓ} : {A : Type ℓ} → (A → Bool) → Option A → Bool
absent_or valid none = true
absent_or valid (some x) = valid x

abbrev is_empty {ℓ} : {A : Type ℓ} → List A → Bool
is_empty [] = true
is_empty _ = false

unfoldable pub select_snapshot : List Scope → SnapshotQuery → Result SnapshotFilter
unfolding valid_exchange valid_market runes select_scopes
select_snapshot scopes q = do
  guard (absent_or valid_exchange q.exchange) invalid_filter
  guard (absent_or valid_market q.market) invalid_filter
  let selected = select_scopes q scopes
  guard (not (is_empty selected)) invalid_filter
  guard (is_empty q.symbol || (leb (length q.symbol) 128 && valid_symbol (runes between q.symbol)))
      invalid_filter
  ok (record { scopes = selected; symbol = if is_empty q.symbol then none else some q.symbol })
