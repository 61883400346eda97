-- ===== src/RateLimiter/Types.antt =====
-- The data of internal/infrastructure/error_rate_limiter.go.
use Prim.Native.String.{String}
use hotel_reviews_microservi.Base.{ℕ, ◌*◌, Bool, true, false, List, [], ◌∷◌, Time, Duration, second}
use hotel_reviews_microservi.Errors.{ErrorType, validation, ErrorSeverity, critical}

-- `unknown` is every string but the four constants.
pub data RateLimitStrategy : Type 0 where
  fixed sliding token leaky unknown : RateLimitStrategy

pub record RateLimitRule : Type 0 where
  pub id : String
  pub name : String
  pub strategy : RateLimitStrategy
  pub limit : ℕ
  pub window : Duration
  pub error_types : List ErrorType
  pub severities : List ErrorSeverity
  pub user_based : Bool
  pub ip_based : Bool
  pub global_limit : Bool
  pub enabled : Bool
  pub created_at : Time
  pub updated_at : Time

pub record RateLimitBucket : Type 0 where
  pub key : String
  pub count : ℕ
  pub last_reset : Time
  pub last_access : Time
  pub timestamps : List Time
  pub tokens : ℕ
  pub max_tokens : ℕ
  pub refill_rate : Duration
  pub strategy : RateLimitStrategy

pub record RateLimitResult : Type 0 where
  pub allowed : Bool
  pub remaining : ℕ
  pub reset_time : Time
  pub retry_after : Duration
  pub rule_id : String
  pub key : String
  pub error_message : String

pub record RateLimitStats : Type 0 where
  pub rule_id : String
  pub total_requests : ℕ
  pub allowed_requests : ℕ
  pub blocked_requests : ℕ
  pub last_request : Time
  pub first_request : Time

abbrev pub minute : Duration
minute = 60 * second

-- The literals of `initializeDefaultRules`, made at the time `now`.
abbrev pub global_error_limit : Time → RateLimitRule
global_error_limit now = record {
  id = "global_error_limit";
  name = "Global Error Limit";
  strategy = sliding;
  limit = 100;
  window = minute;
  error_types = [];
  severities = [];
  user_based = false;
  ip_based = false;
  global_limit = true;
  enabled = true;
  created_at = now;
  updated_at = now;
}

abbrev pub user_error_limit : Time → RateLimitRule
user_error_limit now = record {
  id = "user_error_limit";
  name = "Per-User Error Limit";
  strategy = fixed;
  limit = 50;
  window = minute;
  error_types = [];
  severities = [];
  user_based = true;
  ip_based = false;
  global_limit = false;
  enabled = true;
  created_at = now;
  updated_at = now;
}

abbrev pub critical_error_limit : Time → RateLimitRule
critical_error_limit now = record {
  id = "critical_error_limit";
  name = "Critical Error Limit";
  strategy = token;
  limit = 10;
  window = minute;
  error_types = [];
  severities = critical ∷ [];
  user_based = false;
  ip_based = false;
  global_limit = true;
  enabled = true;
  created_at = now;
  updated_at = now;
}

abbrev pub validation_error_limit : Time → RateLimitRule
validation_error_limit now = record {
  id = "validation_error_limit";
  name = "Validation Error Limit";
  strategy = leaky;
  limit = 200;
  window = minute;
  error_types = validation ∷ [];
  severities = [];
  user_based = true;
  ip_based = true;
  global_limit = false;
  enabled = true;
  created_at = now;
  updated_at = now;
}

abbrev pub default_rules : Time → List RateLimitRule
default_rules now =
    global_error_limit now
    ∷ user_error_limit now
    ∷ critical_error_limit now
    ∷ validation_error_limit now
    ∷ []
