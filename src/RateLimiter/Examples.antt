-- ===== src/RateLimiter/Examples.antt =====
-- The theorems on the error rate limiter at concrete inputs.
use Prim.Native.String.{String}
use hotel_reviews_microservi.Base.{
  ℕ, ◌+◌, ◌*◌, ◌≡◌, refl, Bool, true, false, some, List, [], ◌∷◌, arith, Time, second,
}
use hotel_reviews_microservi.Errors.{AppError, system, medium}
use hotel_reviews_microservi.RateLimiter.Types.{
  RateLimitRule, RateLimitBucket, RateLimitResult, sliding, global_error_limit,
}
use hotel_reviews_microservi.RateLimiter.Bucket.{
  create_bucket, check_token_bucket, check_bucket, check_sliding_window, valid_timestamps, check_by,
}
use hotel_reviews_microservi.RateLimiter.Bucket.Sliding.{
  sliding_decisions, allowed_by_history, sliding_decisions_lem,
}
use hotel_reviews_microservi.RateLimiter.Bucket.Token.{
  count_allowed, count_allowed-token, TokenBill,
}
use hotel_reviews_microservi.RateLimiter.Limiter.{
  ErrorRateLimiter, app_error, generate_bucket_key, check_rate_limit, should_limit, update_stats,
  to_app_error, limit_by, rule_matches,
}
use hotel_reviews_microservi.Base.Maps.{get, put, AllValues}
use hotel_reviews_microservi.RateLimiter.Limiter.Decisions.{IsReady, should_limit_total}

abbrev two_per_minute : RateLimitRule
two_per_minute = record (global_error_limit 0) { limit = 2 }

abbrev key : String
key = "[global_error_limit global]"

abbrev bucket : RateLimitBucket
bucket = record {
  key = key;
  count = 0;
  last_reset = 100;
  last_access = 100;
  timestamps = [];
  tokens = 2;
  max_tokens = 2;
  refill_rate = 30 * second;
  strategy = sliding;
}

bucket_is_new : create_bucket 100 key two_per_minute ≡ some bucket
unfolding create_bucket
bucket_is_new = refl

abbrev moments : List Time
moments = 100 ∷ 200 ∷ 300 ∷ (90 * second) ∷ []

sliding_decisions_lem_example :
    sliding_decisions two_per_minute bucket moments
    ≡ some (allowed_by_history 2 (60 * second) [] moments)
sliding_decisions_lem_example =
    sliding_decisions_lem two_per_minute key 100 moments bucket_is_new (omega arith)

sliding_run : allowed_by_history 2 (60 * second) [] moments ≡ true ∷ true ∷ false ∷ true ∷ []
unfolding allowed_by_history
sliding_run = refl

count_allowed-token_example :
    (b' : RateLimitBucket) × (n : ℕ) × (count_allowed check_token_bucket two_per_minute bucket
        moments
      ≡ some (b', n))
    × TokenBill bucket b' (n * (30 * second))
count_allowed-token_example =
    count_allowed-token two_per_minute bucket moments (omega arith) (omega arith)

abbrev failure : AppError
failure = record { error_type = system; severity = medium; timestamp = 90; user_id = "ann" }

abbrev limiter : ErrorRateLimiter
limiter = record {
  rules = ("global_error_limit", two_per_minute) ∷ [];
  buckets = (key, bucket) ∷ [];
  stats = [];
}

should_limit_total_example :
    (erl' : ErrorRateLimiter) × (limited : Bool) × (should_limit 500 "" (app_error failure) limiter
      ≡ some (erl', limited))
    × AllValues IsReady erl'.buckets
should_limit_total_example =
    should_limit_total 500 "" (app_error failure) limiter (omega arith) (omega arith)

abbrev after_one : ErrorRateLimiter
after_one = record limiter {
  buckets = (key, record bucket { timestamps = 500 ∷ []; last_access = 500 }) ∷ [];
  stats =
      (
        "global_error_limit",
        record {
          rule_id = "global_error_limit";
          total_requests = 1;
          allowed_requests = 0;
          blocked_requests = 0;
          last_request = 90;
          first_request = 90;
        },
      )
      ∷ [];
}

abbrev first_result : RateLimitResult
first_result = record {
  allowed = true;
  remaining = 1;
  reset_time = 500 + 60 * second;
  retry_after = 0;
  rule_id = "global_error_limit";
  key = key;
  error_message = "";
}

one_check : check_rate_limit 500 two_per_minute failure limiter ≡ some (after_one, first_result)
unfolding check_rate_limit check_bucket check_by check_sliding_window valid_timestamps
    generate_bucket_key update_stats get put
one_check = refl

one_decision : should_limit 500 "" (app_error failure) limiter ≡ some (after_one, false)
unfolding should_limit to_app_error limit_by rule_matches check_rate_limit check_bucket check_by
    check_sliding_window valid_timestamps generate_bucket_key update_stats get put
one_decision = refl
