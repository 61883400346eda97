-- ===== src/Auth/Config.antt =====
-- The part of `AuthMiddlewareConfig` of internal/application/auth_middleware.go that the limiter, the
-- blacklist, the sessions and the handlers read.
use Prim.Native.String.{String}
use hotel_reviews_microservi.Base.{ℕ, ◌*◌, Bool, true, false, List, [], Duration, second}

pub record AuthMiddlewareConfig : Type 0 where
  pub rate_limit_enabled : Bool
  pub rate_limit_requests : ℕ
  pub rate_limit_window : Duration
  pub rate_limit_burst : ℕ
  pub session_timeout : Duration
  pub max_active_sessions : ℕ
  pub blacklist_enabled : Bool
  pub whitelist_enabled : Bool
  pub whitelist_ips : List String
  pub api_key_enabled : Bool
  pub circuit_breaker_enabled : Bool
  pub cors_enabled : Bool

abbrev pub default_auth_middleware_config : AuthMiddlewareConfig
default_auth_middleware_config = record {
  rate_limit_enabled = true;
  rate_limit_requests = 100;
  rate_limit_window = 60 * second;
  rate_limit_burst = 10;
  session_timeout = 1800 * second;
  max_active_sessions = 10;
  blacklist_enabled = true;
  whitelist_enabled = false;
  whitelist_ips = [];
  api_key_enabled = true;
  circuit_breaker_enabled = true;
  cors_enabled = true;
}
