-- ===== src/Auth/Limits.antt =====
-- `RateLimiter` of internal/application/auth_middleware.go. A user is given by the text of the UUID.
pub mod Window
pub mod Cleanup
pub mod Runs
use Prim.Native.String.{String}
use hotel_reviews_microservi.Base.{
  ℕ, suc, ◌+◌, ◌*◌, Bool, true, false, ◌&&◌, Option, none, some, List, [], ◌∷◌, if◌then◌else◌, ltb,
  leb, Time,
}
use hotel_reviews_microservi.Base.Maps.{get, put, delete_if}
use hotel_reviews_microservi.Auth.Config.{AuthMiddlewareConfig}

-- `UserRateLimit` and `IPRateLimit`, which differ in the key only.
pub record RateLimit : Type 0 where
  pub request_count : ℕ
  pub last_reset : Time
  pub burst_used : ℕ
  pub last_request : Time
  pub blocked : Bool
  pub blocked_until : Time

pub record RateLimiter : Type 0 where
  pub user_limits : List (String × RateLimit)
  pub ip_limits : List (String × RateLimit)

abbrev pub new_rate_limiter : RateLimiter
new_rate_limiter = record { user_limits = []; ip_limits = [] }

abbrev pub new_limit : Time → RateLimit
new_limit now = record {
  request_count = 0;
  last_reset = now;
  burst_used = 0;
  last_request = now;
  blocked = false;
  blocked_until = 0;
}

abbrev pub or_new_limit : Time → Option RateLimit → RateLimit
or_new_limit now none = new_limit now
or_new_limit now (some l) = l

module _ (config : AuthMiddlewareConfig) (now : Time) where
  -- The window is started again, once it has passed.
  unfoldable pub reset_window : RateLimit → RateLimit
  reset_window l =
      if leb (l.last_reset + config.rate_limit_window) now
      then record l { request_count = 0; last_reset = now; burst_used = 0; blocked = false }
      else l

  -- Whether the request is refused, with the entry after it.
  unfoldable pub admit : RateLimit → RateLimit × Bool
  admit l =
      if leb config.rate_limit_requests l.request_count
      then if leb config.rate_limit_burst l.burst_used
        then (record l { blocked = true; blocked_until = now + config.rate_limit_window }, true)
        else (
          record l {
            burst_used = suc l.burst_used;
            request_count = suc l.request_count;
            last_request = now;
          },
          false,
        )
      else (record l { request_count = suc l.request_count; last_request = now }, false)

  unfoldable pub check_limit : RateLimit → RateLimit × Bool
  unfolding reset_window admit
  check_limit l = if l.blocked && ltb now l.blocked_until then (l, true) else admit (reset_window l)

  -- The part that is the same for users and addresses.
  unfoldable pub check_key : String → List (String × RateLimit) → List (String × RateLimit) × Bool
  unfolding check_limit
  check_key key limits =
      let (l, refused) = check_limit (or_new_limit now (get key limits)) in
      (put key l limits, refused)

  unfoldable pub check_user_rate_limit : String → RateLimiter → RateLimiter × Bool
  check_user_rate_limit user_id rl =
      if config.rate_limit_enabled
      then (let (m, refused) = check_key user_id rl.user_limits in
          (record rl { user_limits = m }, refused))
      else (rl, false)

  unfoldable pub check_ip_rate_limit : String → RateLimiter → RateLimiter × Bool
  check_ip_rate_limit ip rl =
      if config.rate_limit_enabled
      then (let (m, refused) = check_key ip rl.ip_limits in (record rl { ip_limits = m }, refused))
      else (rl, false)

  -- The entries whose last request is older than two windows are dropped.
  abbrev pub is_old : RateLimit → Bool
  is_old l = ltb (l.last_request + 2 * config.rate_limit_window) now

  unfoldable pub perform_cleanup : RateLimiter → RateLimiter
  perform_cleanup rl = record {
    user_limits = delete_if is_old rl.user_limits;
    ip_limits = delete_if is_old rl.ip_limits;
  }
