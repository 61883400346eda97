-- ===== src/Auth/Middleware/Examples.antt =====
-- The theorems on the handlers of internal/application/auth_middleware.go at concrete inputs.
use Prim.Native.String.{String}
use text.Mathlib.Text.{◌==◌}
use hotel_reviews_microservi.Base.{
  ◌+◌, ◌*◌, ◌≡◌, refl, true, false, Option, none, some, List, [], ◌∷◌, arith, Time, second,
  if◌then◌else◌,
}
use hotel_reviews_microservi.Base.Maps.{get}
use hotel_reviews_microservi.CircuitBreaker.Types.{
  state_closed, state_half_open, other, default_config, new_metrics,
}
use hotel_reviews_microservi.CircuitBreaker.Window.{empty_bucket}
use hotel_reviews_microservi.CircuitBreaker.Machine.{
  CircuitBreaker, can_execute, record_result, update_metrics, record_success,
}
use hotel_reviews_microservi.CircuitBreaker.Calls.{run}
use hotel_reviews_microservi.CircuitBreaker.Execute.{
  ok, err, Environment, is_retryable_error, retry_loop, execute_with_retry, execute_with_fallback,
  or_fallback,
}
use hotel_reviews_microservi.Auth.Config.{AuthMiddlewareConfig, default_auth_middleware_config}
use hotel_reviews_microservi.Auth.Limits.{new_rate_limiter, check_ip_rate_limit}
use hotel_reviews_microservi.Auth.Blacklist.{BlacklistManager, is_user_blacklisted}
use hotel_reviews_microservi.Auth.Requests.{
  User, AuthService, Request, AuthMiddleware, served, Handler,
}
use hotel_reviews_microservi.Auth.Middleware.{
  validate, authenticate_jwt, authenticate_api_key, authenticate_cookie, authenticate_request,
}
use hotel_reviews_microservi.Auth.Middleware.Lockout.{after_tokens, authenticate_jwt-locked_out}

abbrev config : AuthMiddlewareConfig
config = default_auth_middleware_config

abbrev start : Time
start = 1000 * second

abbrev bob : User
bob = record { id = "bob"; roles = "user" ∷ [] }

abbrev always {ℓ} : {A : Type ℓ} → A → Environment A
always a = record { done_before = λ n. none; answer = λ n. ok a; done_waiting = λ n. none }

abbrev never {ℓ} : {A : Type ℓ} → Environment A
never = record { done_before = λ n. none; answer = λ n. err (other 1); done_waiting = λ n. none }

abbrev token_environment : String → Environment User
token_environment token = if token == "good" then always bob else never

abbrev service : AuthService
service = record {
  validate_token = token_environment;
  validate_api_key = λ key. never;
  get_user = λ id. none;
  check_permission = λ id resource action. ok true;
}

abbrev request : String → Request
request token = record {
  now = start;
  token_clock = record { started = start; checked = start; finished = start + 1 };
  api_key_clock = record { started = start; checked = start; finished = start + 1 };
  client_ip = "10.0.0.1";
  is_options = false;
  token = some token;
  api_key = none;
  session_cookie = none;
  user = none;
  auth_type = none;
}

abbrev breaker : CircuitBreaker
breaker = record {
  config = record default_config { window_buckets = 1 };
  state = state_closed;
  window = record {
    buckets = empty_bucket start ∷ [];
    size = 60 * second;
    bucket_size = 60 * second;
    current_idx = 0;
  };
  metrics = new_metrics start;
  last_state_change = start;
  consecutive_failures = 0;
  consecutive_successes = 0;
  half_open_requests = 0;
}

abbrev banned : BlacklistManager
banned = record {
  blacklisted_ips = [];
  blacklisted_users = ("bob", start + 60 * second) ∷ [];
  whitelisted_ips = [];
}

abbrev state : AuthMiddleware
state = record {
  rate_limiter = new_rate_limiter;
  blacklist = banned;
  session_manager = [];
  circuit_breaker = breaker;
  metrics = [];
}

abbrev show_user : Handler (Option User)
show_user r am = (am, served r.user)

-- Two probes of the half-open breaker are under way, so one more is admitted.
abbrev probed : AuthMiddleware
probed = record state {
  circuit_breaker = record breaker { state = state_half_open; half_open_requests = 2 };
}

abbrev first : AuthMiddleware
first = (authenticate_request config service (request "good") probed).0

abbrev known : Request
known = record (request "good") { user = some bob; auth_type = some "jwt" }

abbrev limited : AuthMiddleware
limited = record first {
  rate_limiter = (check_ip_rate_limit config start "10.0.0.1" first.rate_limiter).0;
}

abbrev second_time : AuthMiddleware
second_time = (authenticate_request config service known limited).0

bob_is_banned : is_user_blacklisted config start "bob" second_time.blacklist ≡ true
unfolding is_user_blacklisted get authenticate_request authenticate_jwt authenticate_api_key
    authenticate_cookie validate execute_with_fallback can_execute execute_with_retry retry_loop
    record_result record_success update_metrics run or_fallback
bob_is_banned = refl

abbrev bad_ones : List Request
bad_ones = request "bad" ∷ request "worse" ∷ request "bad" ∷ []

authenticate_jwt-locked_out_example :
    (authenticate_jwt config service
      (request "good")
      (after_tokens config service bad_ones state)).1
    ≡ none
unfolding execute_with_retry retry_loop is_retryable_error
authenticate_jwt-locked_out_example =
    authenticate_jwt-locked_out config service start bad_ones (request "good") state refl refl
      (omega arith) (omega arith) (omega arith)
      (
        ("bad", other 1, refl, refl, omega arith, omega arith),
        (
          ("worse", other 1, refl, refl, omega arith, omega arith),
          (("bad", other 1, refl, refl, omega arith, omega arith), tt),
        ),
      )
      (omega arith)
