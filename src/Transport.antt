-- ===== src/Transport.antt =====
-- internal/transport/grpc: what a caller of the API gets. Errors: `mapError` of errors.go, with
-- the codes and messages of internal/application/errors.go. Rows: conversion.go. Packages of gRPC
-- and protobuf are parameters.
pub mod Codes
pub mod Exposed
pub mod Rows
pub mod Fit
mod Tests
use market_data.Prelude.{
  Bool, true, false, ◌||◌, if◌then◌else◌, Option, none, some, List, [], ◌∷◌, ite, ◌++◌,
}
use market_data.Prelude.Text.{bytes}
use market_data.Errors.{
  Error, Error-discrete, invalid_parameter, invalid_filter, invalid_status, unsupported_window,
  invalid_interval, invalid_range, request_too_large, range_out_of_retention, symbol_not_found,
  data_not_ready, service_overloaded, upstream_unavailable, request_timeout, upstream,
  invalid_upstream_data, upstream_attempt_limit, incomplete_data, internal, unsupported_operation,
  canceled, deadline_exceeded, both,
}
use market_data.Domain.Market.{Text}
use market_data.Transport.Codes.{Code}

-- What the transport maps: an error of the application, or `errResponseTooLarge`.
pub data Failure : Type 0 where
  of_error : Error → Failure
  response_too_large : Failure

pub record Status : Type 0 where
  pub code : Code
  pub reason : Text
  pub message : Text

-- `Code` and `Error` of the application's errors; the others have none.
unfoldable pub reason_of : Error → Text
reason_of invalid_parameter = bytes "invalid_parameter"
reason_of invalid_filter = bytes "invalid_filter"
reason_of invalid_status = bytes "invalid_status"
reason_of unsupported_window = bytes "unsupported_window"
reason_of invalid_interval = bytes "invalid_interval"
reason_of invalid_range = bytes "invalid_range"
reason_of request_too_large = bytes "request_too_large"
reason_of range_out_of_retention = bytes "range_out_of_retention"
reason_of symbol_not_found = bytes "symbol_not_found"
reason_of data_not_ready = bytes "data_not_ready"
reason_of service_overloaded = bytes "service_overloaded"
reason_of upstream_unavailable = bytes "upstream_unavailable"
reason_of request_timeout = bytes "request_timeout"
reason_of upstream = bytes "upstream_error"
reason_of invalid_upstream_data = bytes "invalid_upstream_data"
reason_of upstream_attempt_limit = bytes "upstream_attempt_limit"
reason_of incomplete_data = bytes "incomplete_data"
reason_of internal = bytes "internal_error"
reason_of unsupported_operation = bytes "unsupported_operation"
reason_of _ = []

unfoldable pub message_of : Error → Text
message_of invalid_parameter = bytes "Invalid parameter"
message_of invalid_filter = bytes "Invalid filter"
message_of invalid_status = bytes "Invalid instrument status"
message_of unsupported_window = bytes "Unsupported statistics window"
message_of invalid_interval = bytes "Invalid or unsupported interval"
message_of invalid_range = bytes "Invalid time range"
message_of request_too_large = bytes "Request is too large"
message_of range_out_of_retention = bytes "Range is outside retained history"
message_of symbol_not_found = bytes "Symbol not found"
message_of data_not_ready = bytes "Data is not ready"
message_of service_overloaded = bytes "Service is overloaded"
message_of upstream_unavailable = bytes "Upstream is unavailable"
message_of request_timeout = bytes "Request timed out"
message_of upstream = bytes "Upstream request failed"
message_of invalid_upstream_data = bytes "Invalid upstream data"
message_of upstream_attempt_limit = bytes "Upstream attempt limit reached"
message_of incomplete_data = bytes "Requested data is incomplete"
message_of internal = bytes "Internal error"
message_of unsupported_operation = bytes "Unsupported operation"
message_of _ = []

-- `errors.Is(e, known)` for an error that wraps none.
unfoldable pub is_error : Error → Error → Bool
unfolding Error-discrete
is_error (both e f) known = is_error e known || is_error f known
is_error e known = ite (Error-discrete e known) true false

-- The table of `mapError`, in its order.
abbrev pub mappings : List (Code × List Error)
mappings =
    (
      Code.invalid_argument,
      invalid_parameter ∷ invalid_filter ∷ invalid_status ∷ unsupported_window ∷ invalid_interval
          ∷ invalid_range ∷ request_too_large ∷ range_out_of_retention ∷ [],
    )
    ∷ (Code.not_found, symbol_not_found ∷ [])
    ∷ (Code.unavailable, data_not_ready ∷ upstream_unavailable ∷ upstream ∷ [])
    ∷ (Code.resource_exhausted, service_overloaded ∷ upstream_attempt_limit ∷ [])
    ∷ (Code.failed_precondition, incomplete_data ∷ [])
    ∷ (Code.data_loss, invalid_upstream_data ∷ [])
    ∷ (Code.unimplemented, unsupported_operation ∷ [])
    ∷ []

abbrev pub status_of : Code → Error → Status
status_of code known = record { code = code; reason = reason_of known; message = message_of known }

-- The loops: a later match replaces an earlier one.
unfoldable pub match_errors : Error → Code → List Error → Status → Status
unfolding is_error reason_of message_of
match_errors e code [] status = status
match_errors e code (known ∷ rest) status =
    match_errors e code rest (if is_error e known then status_of code known else status)

unfoldable pub match_mappings : Error → List (Code × List Error) → Status → Status
unfolding match_errors
match_mappings e [] status = status
match_mappings e ((code, errors) ∷ rest) status =
    match_mappings e rest (match_errors e code errors status)

abbrev pub internal_status : Status
internal_status = record {
  code = Code.internal;
  reason = bytes "internal_error";
  message = bytes "Internal error";
}

unfoldable pub map_known : Failure → Status
unfolding match_mappings is_error
map_known response_too_large = record {
  code = Code.resource_exhausted;
  reason = bytes "response_too_large";
  message = bytes "Response is too large";
}
map_known (of_error e) =
    if is_error e canceled
    then record {
      code = Code.canceled;
      reason = bytes "request_canceled";
      message = bytes "Request canceled";
    }
    else if is_error e deadline_exceeded || is_error e request_timeout
    then record {
      code = Code.deadline_exceeded;
      reason = bytes "request_timeout";
      message = bytes "Request timed out";
    }
    else match_mappings e mappings internal_status

-- `mapError`: `encodes` tells whether the detail of a status can be encoded; a status without one
-- has no reason.
unfoldable pub map_error : (Status → Bool) → Option Failure → Option Status
unfolding map_known
map_error encodes none = none
map_error encodes (some failure) =
    let status = map_known failure in
    if encodes status
    then some status
    else some (record { code = Code.internal; reason = []; message = bytes "Internal error" })
