-- ===== src/Transport/Exposed.antt =====
-- What `mapError` of internal/transport/grpc/errors.go shows of an error.
use market_data.Prelude.{◌≡◌, Bool, true, false, ◌||◌, List, [], ◌∷◌, ◌⊎◌}
use market_data.Prelude.Text.{bytes}
use market_data.Errors.{Error, canceled, deadline_exceeded, request_timeout}
use market_data.Transport.Codes.{Code}
use market_data.Transport.{Status, is_error, mappings, status_of, internal_status}

abbrev pub In : Error → List Error → Type 0
In known [] = ⊥
In known (e ∷ errors) = (e ≡ known) ⊎ In known errors

-- The table has this code for this error.
abbrev pub Listed : Code → Error → List (Code × List Error) → Type 0
Listed code known [] = ⊥
Listed code known ((c, errors) ∷ rest) = ((c ≡ code) × In known errors) ⊎ Listed code known rest

-- Does the error wrap one of these?
abbrev any_error : Error → List Error → Bool
any_error e [] = false
any_error e (known ∷ errors) = is_error e known || any_error e errors

abbrev pub any_listed : Error → List (Code × List Error) → Bool
any_listed e [] = false
any_listed e ((c, errors) ∷ rest) = any_error e errors || any_listed e rest

abbrev pub canceled_status : Status
canceled_status = record {
  code = Code.canceled;
  reason = bytes "request_canceled";
  message = bytes "Request canceled";
}

abbrev pub timeout_status : Status
timeout_status = record {
  code = Code.deadline_exceeded;
  reason = bytes "request_timeout";
  message = bytes "Request timed out";
}

-- What a client may see of an error: a cancellation, a timeout, the code with the reason and the
-- message of an error in the table that this one is or wraps, or the internal error.
abbrev pub Shown : Error → Status → Type 0
Shown e status =
    ((is_error e canceled ≡ true) × (status ≡ canceled_status))
    ⊎ ((is_error e canceled ≡ false)
        × ((((is_error e deadline_exceeded || is_error e request_timeout) ≡ true)
              × (status ≡ timeout_status))
            ⊎ (((is_error e deadline_exceeded || is_error e request_timeout) ≡ false)
                × (((code : Code) × (known : Error) × Listed code known mappings
                      × (is_error e known ≡ true)
                      × (status ≡ status_of code known))
                    ⊎ ((any_listed e mappings ≡ false) × (status ≡ internal_status))))))
