-- ===== src/RateLimiter/Bucket.antt =====
-- The buckets of internal/infrastructure/error_rate_limiter.go and the four strategies. Each check
-- reads the clock once, at `now`; `none` is a runtime panic, a division by zero or an index out of
-- range.
pub mod Sliding
pub mod Fixed
pub mod Token
use Prim.Native.String.{String, ◌++◌}
use hotel_reviews_microservi.Base.{
  ℕ, ◌+◌, ◌-◌, ◌/◌, min, Bool, true, false, Option, none, some, List, [], ◌∷◌, ltb, leb, ◌==◌,
  if◌then◌else◌, length, Time, Duration,
}
use hotel_reviews_microservi.RateLimiter.Types.{
  RateLimitStrategy, fixed, sliding, token, leaky, unknown, RateLimitRule, RateLimitBucket,
  RateLimitResult,
}

unfoldable pub create_bucket : Time → String → RateLimitRule → Option RateLimitBucket
create_bucket now key rule =
    if rule.limit == 0
    then none
    else some (record {
      key = key;
      count = 0;
      last_reset = now;
      last_access = now;
      timestamps = [];
      tokens = rule.limit;
      max_tokens = rule.limit;
      refill_rate = rule.window / rule.limit;
      strategy = rule.strategy;
    })

abbrev pub exceeded : RateLimitRule → String
exceeded rule = "Rate limit exceeded for rule " ++ rule.name

abbrev pub refuse : RateLimitRule → RateLimitBucket → Time → Duration → RateLimitResult
refuse rule b reset_time retry_after = record {
  allowed = false;
  remaining = 0;
  reset_time = reset_time;
  retry_after = retry_after;
  rule_id = rule.id;
  key = b.key;
  error_message = exceeded rule;
}

abbrev pub allow : RateLimitRule → RateLimitBucket → ℕ → Time → RateLimitResult
allow rule b remaining reset_time = record {
  allowed = true;
  remaining = remaining;
  reset_time = reset_time;
  retry_after = 0;
  rule_id = rule.id;
  key = b.key;
  error_message = "";
}

-- A new window, if the old one has passed.
renew : Time → RateLimitRule → RateLimitBucket → RateLimitBucket
renew now rule b =
    if leb (b.last_reset + rule.window) now then record b { count = 0; last_reset = now } else b

unfoldable pub check_fixed_window :
    Time → RateLimitBucket → RateLimitRule → RateLimitBucket × RateLimitResult
unfolding renew
check_fixed_window now bucket rule =
    let b = renew now rule bucket in
    let counted : RateLimitBucket = record b { count = b.count + 1; last_access = now } in
    if leb rule.limit b.count
    then (b, refuse rule b (b.last_reset + rule.window) (b.last_reset + rule.window - now))
    else (counted, allow rule b (rule.limit - counted.count) (b.last_reset + rule.window))

-- The timestamps after `now.Add(-rule.Window)`, in their order.
unfoldable pub valid_timestamps : Time → Duration → List Time → List Time
valid_timestamps now window [] = []
valid_timestamps now window (ts ∷ rest) =
    if ltb now (ts + window)
    then ts ∷ valid_timestamps now window rest
    else valid_timestamps now window rest

abbrev pub push_back : List Time → Time → List Time
push_back [] now = now ∷ []
push_back (ts ∷ rest) now = ts ∷ push_back rest now

-- `bucket.Timestamps[0]` is the oldest.
refuse_sliding :
    Time → RateLimitBucket → RateLimitRule → List Time → Option (RateLimitBucket × RateLimitResult)
refuse_sliding now b rule [] = none
refuse_sliding now b rule (oldest ∷ rest) =
    some (b, refuse rule b (oldest + rule.window) (oldest + rule.window - now))

unfoldable pub check_sliding_window :
    Time → RateLimitBucket → RateLimitRule → Option (RateLimitBucket × RateLimitResult)
unfolding refuse_sliding
check_sliding_window now bucket rule =
    let valid = valid_timestamps now rule.window bucket.timestamps in
    let b : RateLimitBucket = record bucket { timestamps = valid } in
    let added : RateLimitBucket = record b {
      timestamps = push_back valid now;
      last_access = now;
    } in
    if leb rule.limit (length valid)
    then refuse_sliding now b rule valid
    else some (added, allow rule b (rule.limit - length added.timestamps) (now + rule.window))

refill : Time → RateLimitBucket → RateLimitBucket
refill now b =
    let tokens_to_add = (now - b.last_access) / b.refill_rate in
    if ltb 0 tokens_to_add
    then record b { tokens = min b.max_tokens (b.tokens + tokens_to_add); last_access = now }
    else b

unfoldable pub check_token_bucket :
    Time → RateLimitBucket → RateLimitRule → Option (RateLimitBucket × RateLimitResult)
unfolding refill
check_token_bucket now bucket rule =
    let b = refill now bucket in
    let taken : RateLimitBucket = record b { tokens = b.tokens - 1; last_access = now } in
    if bucket.refill_rate == 0
    then none
    else if b.tokens == 0
    then some (b, refuse rule b (now + b.refill_rate) b.refill_rate)
    else some (taken, allow rule b taken.tokens (now + b.refill_rate))

-- `max(0, bucket.Count-tokensToLeak)`, as the subtraction that stops at 0.
leak : Time → RateLimitBucket → RateLimitBucket
leak now b =
    let tokens_to_leak = (now - b.last_access) / b.refill_rate in
    if ltb 0 tokens_to_leak
    then record b { count = b.count - tokens_to_leak; last_access = now }
    else b

unfoldable pub check_leaky_bucket :
    Time → RateLimitBucket → RateLimitRule → Option (RateLimitBucket × RateLimitResult)
unfolding leak
check_leaky_bucket now bucket rule =
    let b = leak now bucket in
    let added : RateLimitBucket = record b { count = b.count + 1; last_access = now } in
    if bucket.refill_rate == 0
    then none
    else if leb rule.limit b.count
    then some (b, refuse rule b (now + b.refill_rate) b.refill_rate)
    else some (added, allow rule b (rule.limit - added.count) (now + b.refill_rate))

-- The switch of `checkRateLimit` on the strategy.
unfoldable pub check_by :
    RateLimitStrategy
    → Time
    → RateLimitBucket
    → RateLimitRule
    → Option (RateLimitBucket × RateLimitResult)
check_by fixed now b rule = some (check_fixed_window now b rule)
check_by sliding now b rule = check_sliding_window now b rule
check_by token now b rule = check_token_bucket now b rule
check_by leaky now b rule = check_leaky_bucket now b rule
check_by unknown now b rule = some (b, allow rule b 0 0)

unfoldable pub check_bucket :
    Time → RateLimitBucket → RateLimitRule → Option (RateLimitBucket × RateLimitResult)
unfolding check_by
check_bucket now b rule = check_by rule.strategy now b rule
