-- ===== src/Retry/Types.antt =====
-- The configuration of internal/infrastructure/retry.go, and which errors are retried.
use Prim.Native.String.{String}
use hotel_reviews_microservi.Base.{
  ℕ, Bool, true, false, ◌&&◌, ◌||◌, not, Option, none, some, List, [], ◌∷◌, if◌then◌else◌, Duration,
}
use hotel_reviews_microservi.Errors.{
  ErrorType, ErrorType-discrete, system, network, timeout, circuit_breaker, rate_limit, external,
  client, validation,
}
use hotel_reviews_microservi.CircuitBreaker.Types.{Error, is_circuit_breaker_error}
use hotel_reviews_microservi.CircuitBreaker.Execute.{is_context_error}

pub data RetryStrategy : Type 0 where
  fixed_delay exponential_backoff linear_backoff fibonacci_backoff custom : RetryStrategy

pub data JitterType : Type 0 where
  no_jitter full equal decorrelated : JitterType

-- The fields that are read but for logging and for the floating point factors. A nil condition is left out.
pub record RetryConfig : Type 0 where
  pub max_attempts : ℕ
  pub base_delay : Duration
  pub max_delay : Duration
  pub strategy : RetryStrategy
  pub jitter_type : JitterType
  pub enable_circuit_breaker : Bool
  pub retryable_errors : List ErrorType
  pub permanent_errors : List ErrorType
  pub custom_conditions : List (Error → ℕ → Bool)
  pub enable_dead_letter : Bool
  pub has_dead_letter_handler : Bool
  pub custom_backoff : Option (ℕ → Duration → Duration)
  pub operation_key : String

-- What the standard library says of an error: whether it is a `net.Error`, and then whether it is a
-- timeout, and whether its text in lower case contains another.
pub record ErrorReader : Type 0 where
  pub net_error : Error → Option Bool
  pub contains : Error → String → Bool

module _ (reader : ErrorReader) where
  abbrev contains_any : Error → List String → Bool
  contains_any e [] = false
  contains_any e (x ∷ xs) = reader.contains e x || contains_any e xs

  -- The tests of the text, in their order.
  unfoldable pub classify_text : Error → ErrorType
  classify_text e =
      if contains_any e ("timeout" ∷ "deadline" ∷ [])
      then timeout
      else if contains_any e ("rate limit" ∷ "too many requests" ∷ [])
      then rate_limit
      else if contains_any e ("connection refused" ∷ "connection reset" ∷ "network" ∷ "dns" ∷ [])
      then network
      else if contains_any e ("500" ∷ "502" ∷ "503" ∷ "504" ∷ [])
      then external
      else if contains_any e ("400" ∷ "401" ∷ "403" ∷ "404" ∷ [])
      then client
      else if contains_any e ("invalid" ∷ "bad request" ∷ "unauthorized" ∷ "forbidden" ∷ [])
      then validation
      else system

  unfoldable pub classify_error : Error → ErrorType
  classify_error e =
      if is_circuit_breaker_error e
      then circuit_breaker
      else if is_context_error e
      then timeout
      else elim (reader.net_error e) [
        | some true ↦ timeout
        | some false ↦ network
        | none ↦ classify_text e
      ]

  abbrev all_hold : List (Error → ℕ → Bool) → Error → ℕ → Bool
  all_hold [] e attempt = true
  all_hold (condition ∷ conditions) e attempt = condition e attempt && all_hold conditions e attempt

  abbrev is_listed : ErrorType → List ErrorType → Bool
  is_listed t [] = false
  is_listed t (x ∷ xs) = elim (ErrorType-discrete t x) [ yes h ↦ true | no n ↦ is_listed t xs ]

  abbrev is_transient : ErrorType → Bool
  is_transient network = true
  is_transient timeout = true
  is_transient _ = false

  unfoldable pub is_retryable : Error → ℕ → RetryConfig → Bool
  is_retryable e attempt config =
      let t = classify_error e in
      if not (all_hold config.custom_conditions e attempt)
      then false
      else if is_listed t config.permanent_errors
      then false
      else if is_listed t config.retryable_errors
      then true
      else is_transient t
