-- ===== src/Auth/Limits/Window.antt =====
-- What the rate limiter of internal/application/auth_middleware.go allows in one window.
use Prim.Native.String.{String}
use hotel_reviews_microservi.Base.{
  ℕ, zero, suc, ◌+◌, ◌-◌, ◌≤◌, ◌<◌, ◌≡◌, refl, ◌⊎◌, inl, inr, Bool, true, false, none, some, List,
  [], ◌∷◌, arith, All, Time, ◌∙◌,
}
use hotel_reviews_microservi.Base.Maps.{get, get-put_self}
use hotel_reviews_microservi.RateLimiter.Bucket.Fixed.{first_allowed, InWindow}
use hotel_reviews_microservi.Auth.Config.{AuthMiddlewareConfig}
use hotel_reviews_microservi.Auth.Limits.{
  RateLimit, RateLimiter, new_limit, check_limit, check_key, check_user_rate_limit,
}

abbrev negate : Bool → Bool
negate true = false
negate false = true

-- Which of the requests of one user are let through, in turn.
unfoldable pub user_decisions : AuthMiddlewareConfig → String → RateLimiter → List Time → List Bool
user_decisions config user_id rl [] = []
user_decisions config user_id rl (now ∷ ts) =
    let (rl', refused) = check_user_rate_limit config now user_id rl in
    negate refused ∷ user_decisions config user_id rl' ts

-- The same for one entry.
unfoldable pub entry_decisions : AuthMiddlewareConfig → RateLimit → List Time → List Bool
entry_decisions config l [] = []
entry_decisions config l (now ∷ ts) =
    let (l', refused) = check_limit config now l in negate refused ∷ entry_decisions config l' ts

module _ (config : AuthMiddlewareConfig) (user_id : String) (rl : RateLimiter) (l : RateLimit)
    (now : Time) (on : config.rate_limit_enabled ≡ true) where
  check_user-get :
      get user_id rl.user_limits ≡ some l
      → get user_id (check_user_rate_limit config now user_id rl).0.user_limits
        ≡ some (check_limit config now l).0
  unfolding check_user_rate_limit check_key
  check_user-get g = rw (on, g) (get-put_self user_id (check_limit config now l).0 rl.user_limits)

  check_user-refused :
      get user_id rl.user_limits ≡ some l
      → (check_user_rate_limit config now user_id rl).1 ≡ (check_limit config now l).1
  unfolding check_user_rate_limit check_key
  check_user-refused g = rw (on, g)

pub user_decisions-entry :
    (config : AuthMiddlewareConfig) (user_id : String) (rl : RateLimiter) (l : RateLimit)
    (ts : List Time)
    → config.rate_limit_enabled ≡ true
    → get user_id rl.user_limits ≡ some l
    → user_decisions config user_id rl ts ≡ entry_decisions config l ts
unfolding user_decisions entry_decisions
user_decisions-entry config user_id rl l [] on g = refl
user_decisions-entry config user_id rl l (now ∷ ts) on g =
    let rl' = (check_user_rate_limit config now user_id rl).0 in
    let l' = (check_limit config now l).0 in
    let e : get user_id rl'.user_limits ≡ some l' = check_user-get config user_id rl l now on g in
    ground (
      arith,
      check_user-refused config user_id rl l now on g,
      user_decisions-entry config user_id rl' l' ts on e,
    )

-- A user who is not known is treated like one with a new entry.
pub user_decisions-new :
    (config : AuthMiddlewareConfig) (user_id : String) (rl : RateLimiter) (now : Time)
    (ts : List Time)
    → config.rate_limit_enabled ≡ true
    → get user_id rl.user_limits ≡ none
    → user_decisions config user_id rl (now ∷ ts)
      ≡ entry_decisions config (new_limit now) (now ∷ ts)
unfolding user_decisions entry_decisions check_user_rate_limit check_key
user_decisions-new config user_id rl now ts on g =
    let rl' = (check_user_rate_limit config now user_id rl).0 in
    let l' = (check_limit config now (new_limit now)).0 in
    let e : get user_id rl'.user_limits ≡ some l' =
      rw (on, g) (get-put_self user_id l' rl.user_limits) in
    ground (arith, user_decisions-entry config user_id rl' l' ts on e)

-- Within the window an entry allows what is left of the requests and of the burst.
abbrev IsFresh : AuthMiddlewareConfig → ℕ → RateLimit → Type 0
IsFresh config n l =
    (l.blocked ≡ false) ⊎ ((n ≡ 0) × (l.last_reset + config.rate_limit_window ≤ l.blocked_until))

check_limit-zero :
    (config : AuthMiddlewareConfig) (now : Time) (l : RateLimit)
    → 0 ≡ config.rate_limit_requests + config.rate_limit_burst - l.request_count
    → l.burst_used ≡ l.request_count - config.rate_limit_requests
    → IsFresh config 0 l
    → InWindow l.last_reset config.rate_limit_window now
    → let (l', refused) = check_limit config now l in
      (refused ≡ true)
      × (0 ≡ config.rate_limit_requests + config.rate_limit_burst - l'.request_count)
      × (l'.burst_used ≡ l'.request_count - config.rate_limit_requests)
      × IsFresh config 0 l'
      × (l'.last_reset ≡ l.last_reset)
unfolding check_limit
check_limit-zero config now l e b (inl s) w =
    (ground arith, ground arith, ground arith, inr (refl, ground arith), ground arith)
check_limit-zero config now l e b (inr s) w =
    (ground arith, ground arith, ground arith, inr (refl, ground arith), ground arith)

check_limit-suc :
    (config : AuthMiddlewareConfig) (n : ℕ) (now : Time) (l : RateLimit)
    → suc n ≡ config.rate_limit_requests + config.rate_limit_burst - l.request_count
    → l.burst_used ≡ l.request_count - config.rate_limit_requests
    → IsFresh config (suc n) l
    → InWindow l.last_reset config.rate_limit_window now
    → let (l', refused) = check_limit config now l in
      (refused ≡ false)
      × (n ≡ config.rate_limit_requests + config.rate_limit_burst - l'.request_count)
      × (l'.burst_used ≡ l'.request_count - config.rate_limit_requests)
      × IsFresh config n l'
      × (l'.last_reset ≡ l.last_reset)
unfolding check_limit
check_limit-suc config n now l e b (inr s) w = absurd (omega arith)
check_limit-suc config n now l e b (inl s) w =
    (ground arith, ground arith, ground arith, inl (ground arith), ground arith)

entry_decisions-from :
    (config : AuthMiddlewareConfig) (n : ℕ) (l : RateLimit) (ts : List Time)
    → n ≡ config.rate_limit_requests + config.rate_limit_burst - l.request_count
    → l.burst_used ≡ l.request_count - config.rate_limit_requests
    → IsFresh config n l
    → All (InWindow l.last_reset config.rate_limit_window) ts
    → entry_decisions config l ts ≡ first_allowed n ts
unfolding entry_decisions first_allowed
entry_decisions-from config zero l [] e b s a = refl
entry_decisions-from config (suc n) l [] e b s a = refl
entry_decisions-from config zero l (now ∷ ts) e b s a =
    let l' = (check_limit config now l).0 in
    let (r, e', b', s', k) = check_limit-zero config now l e b s a.0 in
    ground (arith, r, entry_decisions-from config zero l' ts e' b' s' (rw k a.1))
entry_decisions-from config (suc n) l (now ∷ ts) e b s a =
    let l' = (check_limit config now l).0 in
    let (r, e', b', s', k) = check_limit-suc config n now l e b s a.0 in
    ground (arith, r, entry_decisions-from config n l' ts e' b' s' (rw k a.1))

-- In the window that starts with the first request of a user, who is not known yet, the first requests
-- are let through, as many as the limit and the burst together, and the others are refused.
pub user_decisions_lem :
    (config : AuthMiddlewareConfig) (user_id : String) (rl : RateLimiter) (now : Time)
    (ts : List Time)
    → config.rate_limit_enabled ≡ true
    → get user_id rl.user_limits ≡ none
    → 0 < config.rate_limit_window
    → All (InWindow now config.rate_limit_window) ts
    → user_decisions config user_id rl (now ∷ ts)
      ≡ first_allowed (config.rate_limit_requests + config.rate_limit_burst) (now ∷ ts)
user_decisions_lem config user_id rl now ts on g p a =
    user_decisions-new config user_id rl now ts on g
    ∙ entry_decisions-from config (config.rate_limit_requests + config.rate_limit_burst)
        (new_limit now) (now ∷ ts) (omega arith) (omega arith) (inl refl)
        ((omega arith, omega arith), a)
