-- ===== src/Auth/Requests.antt =====
-- The data of the handlers of internal/application/auth_middleware.go, and what they count.
use Prim.Native.String.{String, ◌++◌}
use hotel_reviews_microservi.Base.{ℕ, ◌+◌, Bool, Option, none, some, List, Time}
use hotel_reviews_microservi.Base.Maps.{get, put}
use hotel_reviews_microservi.CircuitBreaker.Machine.{CircuitBreaker}
use hotel_reviews_microservi.CircuitBreaker.Execute.{Outcome, Environment, Clock}
use hotel_reviews_microservi.Auth.Limits.{RateLimiter}
use hotel_reviews_microservi.Auth.Blacklist.{BlacklistManager}
use hotel_reviews_microservi.Auth.Sessions.{Sessions}

-- The fields of `domain.User` that are read; the roles by their names.
pub record User : Type 0 where
  pub id : String
  pub roles : List String

-- The calls of the authentication service. A validation gives its answer at each attempt of the circuit
-- breaker, and what the context says.
pub record AuthService : Type 0 where
  pub validate_token : String → Environment User
  pub validate_api_key : String → Environment String
  pub get_user : String → Option User
  pub check_permission : String → String → String → Outcome Bool

-- What the handlers read of a request and of its context: the address that `getClientIP` finds, the
-- credentials that its headers and cookies hold, if they hold them in the right form, the user and the kind
-- of authentication that the context holds, and the moments at which the request is handled and its
-- credentials are validated.
pub record Request : Type 0 where
  pub now : Time
  pub token_clock : Clock
  pub api_key_clock : Clock
  pub client_ip : String
  pub is_options : Bool
  pub token : Option String
  pub api_key : Option String
  pub session_cookie : Option String
  pub user : Option User
  pub auth_type : Option String

pub record AuthMiddleware : Type 0 where
  pub rate_limiter : RateLimiter
  pub blacklist : BlacklistManager
  pub session_manager : Sessions
  pub circuit_breaker : CircuitBreaker
  pub metrics : List (String × ℕ)

-- The response is the middleware's, with its status, or the handler's.
pub data Response (A : Type 0) : Type 0 where
  error_response : ℕ → Response A
  preflight : Response A
  served : A → Response A

abbrev pub Handler : Type 0 → Type 0
Handler A = Request → AuthMiddleware → AuthMiddleware × Response A

abbrev count_of : Option ℕ → ℕ
count_of none = 0
count_of (some n) = n

unfoldable pub increment_counter : String → AuthMiddleware → AuthMiddleware
increment_counter name am = record am {
  metrics = put name (count_of (get name am.metrics) + 1) am.metrics;
}

unfoldable pub record_auth : String → String → AuthMiddleware → AuthMiddleware
record_auth auth_type result = increment_counter ("auth_" ++ auth_type ++ "_" ++ result)

unfoldable pub record_rate_limit : String → AuthMiddleware → AuthMiddleware
record_rate_limit limit_type = increment_counter ("rate_limit_" ++ limit_type)

unfoldable pub record_blacklist : String → String → AuthMiddleware → AuthMiddleware
record_blacklist list_type action = increment_counter ("blacklist_" ++ list_type ++ "_" ++ action)
