-- ===== src/Transport/Codes.antt =====
-- The codes of package google.golang.org/grpc/codes that internal/transport/grpc/errors.go uses.
pub data Code : Type 0 where
  canceled invalid_argument deadline_exceeded not_found resource_exhausted : Code
  failed_precondition unimplemented internal unavailable data_loss : Code
