-- ===== src/Transport/Tests.antt =====
-- Errors and rows of internal/transport/grpc at concrete inputs.
use market_data.Prelude.{ℕ, ◌-◌, ◌≡◌, refl, true, some, [], ◌∷◌}
use market_data.Prelude.Text.{bytes}
use market_data.Errors.{
  Result, err, ok, both, invalid_interval, invalid_boundary, unknown_calendar, internal,
}
use market_data.Application.Context.{background}
use market_data.Transport.Codes.{Code}
use market_data.Transport.{
  of_error, response_too_large, reason_of, message_of, is_error, match_errors, match_mappings,
  map_known, map_error,
}
use market_data.Transport.Rows.{convert_from, convert_rows, timestamp}
use market_data.Transport.Fit.{Sound, convert_rows-Sound}

-- A wrapped error shows as the application's own.
wrapped_interval :
    map_error (λ s. true) (some (of_error (both invalid_interval unknown_calendar)))
    ≡ some (record {
      code = Code.invalid_argument;
      reason = bytes "invalid_interval";
      message = bytes "Invalid or unsupported interval";
    })
unfolding map_error map_known match_mappings match_errors is_error reason_of message_of
wrapped_interval = refl

hidden :
    map_error (λ s. true) (some (of_error invalid_boundary))
    ≡ some (record {
      code = Code.internal;
      reason = bytes "internal_error";
      message = bytes "Internal error";
    })
unfolding map_error map_known match_mappings match_errors is_error reason_of message_of
hidden = refl

-- Rows of 3 bytes, each with a tag and a size of one byte.
abbrev keeps : ℕ → Result ℕ
keeps n = ok n

two_of_three :
    convert_rows (λ (m : ℕ). 3) (λ n. 1) keeps background (1 ∷ 2 ∷ 3 ∷ []) 12 1
    ≡ (some response_too_large, 1 ∷ 2 ∷ [])
unfolding convert_rows convert_from
two_of_three = refl

convert_rows-Sound_example :
    Sound
      (λ (m : ℕ). 3)
      (λ n. 1)
      keeps
      (1 ∷ 2 ∷ 3 ∷ [])
      (12 - 1)
      (convert_rows (λ (m : ℕ). 3) (λ n. 1) keeps background (1 ∷ 2 ∷ 3 ∷ []) 12 1)
convert_rows-Sound_example =
    convert_rows-Sound (λ m. 3) (λ n. 1) keeps background (1 ∷ 2 ∷ 3 ∷ []) 12 1

no_time : timestamp (λ t. true) 0 ≡ err internal
unfolding timestamp
no_time = refl
