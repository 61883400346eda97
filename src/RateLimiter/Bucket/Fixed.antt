-- ===== src/RateLimiter/Bucket/Fixed.antt =====
-- The fixed window of internal/infrastructure/error_rate_limiter.go: within one window the first
-- requests are allowed, up to the limit.
use hotel_reviews_microservi.Base.{
  ℕ, zero, suc, ◌+◌, ◌-◌, ◌≤◌, ◌<◌, ◌≡◌, refl, Bool, true, false, List, [], ◌∷◌, arith, All, ltb,
  if◌then◌else◌, Time, Duration,
}
use hotel_reviews_microservi.RateLimiter.Types.{RateLimitRule, RateLimitBucket}
use hotel_reviews_microservi.RateLimiter.Bucket.{check_fixed_window}

-- The decisions of `check_fixed_window` on one bucket at the given times.
pub fixed_decisions : RateLimitRule → RateLimitBucket → List Time → List Bool
fixed_decisions rule b [] = []
fixed_decisions rule b (now ∷ ts) =
    let (b', r) = check_fixed_window now b rule in r.allowed ∷ fixed_decisions rule b' ts

-- The first `n` are allowed.
unfoldable pub first_allowed : ℕ → List Time → List Bool
first_allowed n [] = []
first_allowed zero (t ∷ ts) = false ∷ first_allowed zero ts
first_allowed (suc n) (t ∷ ts) = true ∷ first_allowed n ts

abbrev pub InWindow : Time → Duration → Time → Type 0
InWindow from window t = (from ≤ t) × (t < from + window)

check_fixed_window_inside :
    (now : Time) (b : RateLimitBucket) (rule : RateLimitRule)
    → now < b.last_reset + rule.window
    → let (b', r) = check_fixed_window now b rule in
      (b'.last_reset ≡ b.last_reset)
      × (r.allowed ≡ ltb b.count rule.limit)
      × (b'.count ≡ (if ltb b.count rule.limit then suc b.count else b.count))
unfolding check_fixed_window
check_fixed_window_inside now b rule h = ground arith

fixed_decisions_from :
    (n : ℕ) (rule : RateLimitRule) (b : RateLimitBucket) (ts : List Time)
    → n ≡ rule.limit - b.count
    → All (InWindow b.last_reset rule.window) ts
    → fixed_decisions rule b ts ≡ first_allowed n ts
unfolding fixed_decisions first_allowed
fixed_decisions_from zero rule b [] e a = refl
fixed_decisions_from (suc n) rule b [] e a = refl
fixed_decisions_from zero rule b (now ∷ ts) e a =
    let (kept, d, c) = check_fixed_window_inside now b rule a.0.1 in
    ground (
      arith,
      fixed_decisions_from zero rule (check_fixed_window now b rule).0 ts (ground arith)
          (rw kept a.1),
    )
fixed_decisions_from (suc n) rule b (now ∷ ts) e a =
    let (kept, d, c) = check_fixed_window_inside now b rule a.0.1 in
    ground (
      arith,
      fixed_decisions_from n rule (check_fixed_window now b rule).0 ts (ground arith) (rw kept a.1),
    )

-- Within the current window of a bucket the first `limit - count` requests are allowed, and the
-- others are refused.
pub fixed_decisions_lem :
    (rule : RateLimitRule) (b : RateLimitBucket) (ts : List Time)
    → All (InWindow b.last_reset rule.window) ts
    → fixed_decisions rule b ts ≡ first_allowed (rule.limit - b.count) ts
fixed_decisions_lem rule b ts a = fixed_decisions_from (rule.limit - b.count) rule b ts refl a

check_fixed_window_renews :
    (now : Time) (b : RateLimitBucket) (rule : RateLimitRule)
    → 0 < rule.limit
    → b.last_reset + rule.window ≤ now
    → let (b', r) = check_fixed_window now b rule in
      (b'.last_reset ≡ now) × (r.allowed ≡ true) × (b'.count ≡ 1)
unfolding check_fixed_window
check_fixed_window_renews now b rule p h = ground arith

first_allowed-pos :
    (n : ℕ) (t : Time) (ts : List Time)
    → 0 < n
    → first_allowed n (t ∷ ts) ≡ true ∷ first_allowed (n - 1) ts
unfolding first_allowed
first_allowed-pos zero t ts h = absurd (omega arith)
first_allowed-pos (suc n) t ts h = let e : suc n - 1 ≡ n = omega arith in rw e

-- The first request after the window has passed is allowed and starts a new window, in which the
-- first `limit` requests are allowed, this one counted, and the others are refused.
pub fixed_decisions_renewed :
    (rule : RateLimitRule) (b : RateLimitBucket) (now : Time) (ts : List Time)
    → 0 < rule.limit
    → b.last_reset + rule.window ≤ now
    → All (InWindow now rule.window) ts
    → fixed_decisions rule b (now ∷ ts) ≡ first_allowed rule.limit (now ∷ ts)
unfolding fixed_decisions
fixed_decisions_renewed rule b now ts p h a =
    let (reset, d, c) = check_fixed_window_renews now b rule p h in
    let b' = (check_fixed_window now b rule).0 in
    let rest = fixed_decisions_lem rule b' ts (rw reset a) in
    rw (first_allowed-pos rule.limit now ts p, d, rest, c)
