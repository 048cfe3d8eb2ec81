-- ===== src/Errors.antt =====
-- The sentinel errors of internal/application/errors.go and internal/domain/timeframe.go, the two
-- errors of package context, and the results that carry them. `fmt.Errorf("text: %w", e)` keeps
-- what `errors.Is` finds, so it is `e`; `fmt.Errorf("text: %w: %w", e, f)` is `both e f`.
use market_data.Prelude.{Bool, true, false, ◌≡◌, refl, ◌⊎◌, inl, inr}

pub data Error : Type 0 where
  invalid_parameter invalid_filter invalid_status unsupported_window invalid_interval : Error
  invalid_range request_too_large range_out_of_retention symbol_not_found : Error
  data_not_ready service_overloaded upstream_unavailable request_timeout upstream : Error
  invalid_upstream_data upstream_attempt_limit incomplete_data internal : Error
  unsupported_operation : Error
  invalid_timeframe unknown_calendar invalid_boundary time_overflow : Error
  invalid_slot_range slot_limit : Error
  canceled deadline_exceeded : Error
  both : Error → Error → Error

unfoldable pub Error-discrete : Discrete Error
Error-discrete = hlevel

-- What a fallible Go function returns: an error, or the other results.
pub data Result {ℓ} (Value : Type ℓ) : Type ℓ where
  err : Error → Result Value
  ok : Value → Result Value

-- `if !allowed { return e }`.
abbrev pub guard : Bool → Error → Result (Unit {0})
guard false e = err e
guard true _ = ok tt

-- `if err != nil { return annotate(err) }`.
abbrev pub wrapped {ℓ} : {Value : Type ℓ} → (Error → Error) → Result Value → Result Value
wrapped annotate (err e) = err (annotate e)
wrapped _ (ok value) = ok value

-- `if err != nil { return err }`, and the rest of the function.
infixl 5 ◌>>=◌ ◌>>◌
abbrev pub ◌>>=◌ {ℓ κ} :
    {Value : Type ℓ} {Next : Type κ} → Result Value → (Value → Result Next) → Result Next
err e >>= _ = err e
ok value >>= rest = rest value

abbrev pub ◌>>◌ {ℓ} : {Next : Type ℓ} → Result (Unit {0}) → Result Next → Result Next
checked >> rest = checked >>= λ _. rest

-- A function that succeeds got past each of its checks.
pub >>=-eq-ok {ℓ κ} :
    {Value : Type ℓ} {Next : Type κ} (r : Result Value) (rest : Value → Result Next) {n : Next}
    → (r >>= rest) ≡ ok n
    → (value : Value) × (r ≡ ok value) × (rest value ≡ ok n)
>>=-eq-ok (err _) rest succeeds = cc
>>=-eq-ok (ok value) rest succeeds = (value, refl, succeeds)

pub guard-eq-ok {ℓ} :
    {Next : Type ℓ} (allowed : Bool) (e : Error) (rest : Result Next) {n : Next}
    → (guard allowed e >> rest) ≡ ok n
    → (allowed ≡ true) × (rest ≡ ok n)
guard-eq-ok false e rest succeeds = cc
guard-eq-ok true e rest succeeds = (refl, succeeds)

pub Result-cases : (m : Result (Unit {0})) → (m ≡ ok tt) ⊎ ((e : Error) × (m ≡ err e))
Result-cases (ok tt) = inl refl
Result-cases (err e) = inr (e, refl)

pub ok_value {ℓ} : {Value : Type ℓ} (x y : Value) → ok x ≡ ok y → x ≡ y
ok_value x y h = cc
