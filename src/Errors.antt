-- ===== src/Errors.antt =====
-- The error types and severities of internal/infrastructure/error_handler.go, and the part of
-- `AppError` that the other components read.
use Prim.Native.String.{String}
use hotel_reviews_microservi.Base.{Time}

pub data ErrorType : Type 0 where
  system database network timeout circuit_breaker rate_limit resource configuration : ErrorType
  business validation authentication authorization not_found conflict precondition : ErrorType
  external third_party upstream downstream : ErrorType
  client malformed_request unsupported : ErrorType

unfoldable pub ErrorType-discrete : Discrete ErrorType
ErrorType-discrete = hlevel

pub data ErrorSeverity : Type 0 where
  low medium high critical : ErrorSeverity

unfoldable pub ErrorSeverity-discrete : Discrete ErrorSeverity
ErrorSeverity-discrete = hlevel

-- The fields of `AppError` that the rate limiter reads.
pub record AppError : Type 0 where
  pub error_type : ErrorType
  pub severity : ErrorSeverity
  pub timestamp : Time
  pub user_id : String
