-- ===== src/Normalization/Printed.antt =====
-- The decimals that `Row.Decimal` of internal/infrastructure/exchange/normalization accepts and
-- internal/transport/grpc prints; not those that are computed from them.
use market_data.Prelude.{
  ℕ, suc, ◌+◌, ◌≤◌, ◌≡◌, refl, subst, arith, Bool, true, false, not, ◌||◌, leb, ◌==◌, if◌then◌else◌,
  Option, none, some, [], ◌∷◌, length, Bool-cases, inl, inr,
}
use market_data.Prelude.Int.{ℤ, pos, negsuc}
use market_data.Errors.{Result, err, ok, >>=-eq-ok, guard-eq-ok, ok_value, invalid_upstream_data}
use market_data.Domain.Market.{Text}
use market_data.Normalization.{
  Decoding, Row, is_empty, starts_with, valid_if, text, characters, decimal_characters, limit,
  negated, signed_decimal, found, decimal,
}
use market_data.Transport.Rows.{printed_length, decimal_text}

-- The two descriptions of the length of a decimal agree.
printed_length-characters : (digits : ℕ) (e : ℤ) → printed_length digits e ≡ characters digits e
printed_length-characters digits (pos n) = refl
printed_length-characters digits (negsuc n) = ground arith

-- `Neg` changes the sign only.
pub record Negation {D : Type 0} (lib : Decoding D) : Type 0 where
  pub same_digits : (value : D) → lib.digits (lib.negate value) ≡ lib.digits value
  pub same_exponent : (value : D) → lib.exponent (lib.negate value) ≡ lib.exponent value

found-ok :
    {D : Type 0} (lib : Decoding D) (required : Bool) (r : Result (Option D)) (value : D)
    → found lib required r ≡ ok (some value)
    → r ≡ ok (some value)
found-ok lib required (err e) value h = cc
found-ok lib true (ok none) value h = cc
found-ok lib false (ok none) value h = h
found-ok lib true (ok (some v)) value h = h
found-ok lib false (ok (some v)) value h = h

some_value : {A : Type 0} (x y : A) → some x ≡ some y → x ≡ y
some_value x y h = cc

module _ {D : Type 0} (lib : Decoding D) where
  abbrev Prints : D → Type 0
  Prints value =
      printed_length (lib.digits value) (lib.exponent value)
        + (if lib.is_negative value then 1 else 0)
      ≤ 1024

  limit-small :
      (source : Text) (value : D)
      → limit lib source ≡ ok (some value)
      → (decimal_characters lib value ≤ 1024) × (lib.is_negative value ≡ false)
  unfolding limit
  limit-small [] value h = cc
  limit-small (b ∷ source) value h =
      let (_, h1) = guard-eq-ok (leb (suc (length source)) 1024) invalid_upstream_data _ h in
      let (parsed, read, h2) = >>=-eq-ok (valid_if (lib.parse_decimal (b ∷ source))) _ h1 in
      let (sign, h3) = guard-eq-ok (not (lib.is_negative parsed)) invalid_upstream_data _ h2 in
      let (size, h4) =
        guard-eq-ok (leb (decimal_characters lib parsed) 1024) invalid_upstream_data _ h3 in
      let same = some_value parsed value (ok_value (some parsed) (some value) h4) in
      subst (λ v. (decimal_characters lib v ≤ 1024) × (lib.is_negative v ≡ false)) same
        (ground arith, ground arith)

  limit-Prints : (source : Text) (value : D) → limit lib source ≡ ok (some value) → Prints value
  limit-Prints source value h =
      let (size, sign) = limit-small source value h in
      rw (printed_length-characters (lib.digits value) (lib.exponent value), sign) (omega arith)

  module _ (negation : Negation lib) where
    negated-Prints :
        (source : Text) (parsed : Option D) (value : D)
        → negated lib parsed ≡ ok (some value)
        → Prints value
    negated-Prints source none value h = cc
    negated-Prints source (some v) value h =
        let (size, h1) =
          guard-eq-ok (leb (decimal_characters lib v + 1) 1024) invalid_upstream_data _ h in
        let same =
          some_value (lib.negate v) value (ok_value (some (lib.negate v)) (some value) h1) in
        let length_of : printed_length (lib.digits (lib.negate v)) (lib.exponent (lib.negate v)) + 1
            ≤ 1024 =
          rw
            (
              negation.same_digits v,
              negation.same_exponent v,
              printed_length-characters (lib.digits v) (lib.exponent v),
            )
            (ground arith) in
        subst Prints same (ground arith)

    signed_decimal-Prints :
        (source : Text) (value : D) → signed_decimal lib source ≡ ok (some value) → Prints value
    unfolding signed_decimal
    signed_decimal-Prints [] value h = cc
    signed_decimal-Prints (b ∷ magnitude) value h =
        let (_, h1) = guard-eq-ok (leb (suc (length magnitude)) 1024) invalid_upstream_data _ h in
        elim (Bool-cases (b == 45)) [
          | inl minus ↦
              let (_, h2) =
                guard-eq-ok
                  (not (is_empty magnitude || starts_with 43 magnitude || starts_with 45 magnitude))
                  invalid_upstream_data _ (rw minus at h1) in
              let (parsed, read, h3) = >>=-eq-ok (limit lib magnitude) _ h2 in
              negated-Prints magnitude parsed value h3
          | inr plain ↦ limit-Prints (b ∷ magnitude) value (rw plain at h1)
        ]

    -- If `Neg` keeps the digits and the exponent of a decimal, then every decimal that
    -- `Row.Decimal` accepts, signed or not, is printed by `decimalText`: its bound on the length,
    -- taken before the number is expanded, is never met.
    pub decimal-decimal_text :
        (print : D → Text) (row : Row) (key : Text) (required signed : Bool) (value : D)
        → decimal lib row key required signed ≡ ok (some value)
        → decimal_text lib print value ≡ ok (print value)
    unfolding decimal decimal_text
    decimal-decimal_text print row key required signed value h =
        let (source, _, h1) = >>=-eq-ok (text lib row key) _ h in
        let parsed =
          found-ok lib required (if signed then signed_decimal lib source else limit lib source)
            value h1 in
        prints (either signed source parsed)
      where
        either :
            (b : Bool) (source : Text)
            → (if b then signed_decimal lib source else limit lib source) ≡ ok (some value)
            → Prints value
        either true source k = signed_decimal-Prints source value k
        either false source k = limit-Prints source value k

        prints : Prints value → decimal_text lib print value ≡ ok (print value)
        prints k = ground arith
