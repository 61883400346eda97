-- ===== src/RateLimiter/Limiter/Keys.antt =====
-- The keys of the buckets, and what `RemoveRule` of internal/infrastructure/error_rate_limiter.go does
-- with them.
use Prim.Native.String.{String, ◌++◌, count}
use text.Mathlib.TextEquality.{eq_iff}
use text.Mathlib.TextLemmas.{length-append}
use hotel_reviews_microservi.Base.{◌≤◌, ◌<◌, ◌≡◌, ◌≢◌, ap, sym, ◌∙◌, some, List, [], ◌∷◌, arith}
use hotel_reviews_microservi.Errors.{AppError}
use hotel_reviews_microservi.RateLimiter.Types.{RateLimitRule, RateLimitBucket}
use hotel_reviews_microservi.RateLimiter.Limiter.{
  ErrorRateLimiter, join_parts, other_parts, or_default, generate_bucket_key, drop_buckets,
  remove_rule,
}
use hotel_reviews_microservi.Base.Maps.{get}

join_parts_longer : (p : String) (ps : List String) → count p ≤ count (join_parts (p ∷ ps))
unfolding join_parts
join_parts_longer p [] = omega arith
join_parts_longer p (q ∷ ps) = omega (arith, length-append p (" " ++ join_parts (q ∷ ps)))

key_longer :
    (rule : RateLimitRule) (e : AppError) → count rule.id < count (generate_bucket_key rule e)
unfolding generate_bucket_key
key_longer rule e =
    let parts = or_default (other_parts rule e) in
    let inner = join_parts (rule.id ∷ parts) in
    omega (
      arith,
      length-append "[" (inner ++ "]"),
      length-append inner "]",
      join_parts_longer rule.id parts,
    )

-- The key of a rule's bucket is never the rule's id.
pub generate_bucket_key-ne-id :
    (rule : RateLimitRule) (e : AppError) → generate_bucket_key rule e ≢ rule.id
generate_bucket_key-ne-id rule e h = omega (arith, key_longer rule e, ap count h)

get-drop_buckets :
    (rule_id key : String) (m : List (String × RateLimitBucket)) {b : RateLimitBucket}
    → get key m ≡ some b
    → b.key ≢ rule_id
    → get key (drop_buckets rule_id m) ≡ some b
unfolding get drop_buckets
get-drop_buckets rule_id key [] h n = h
get-drop_buckets rule_id key ((k, c) ∷ m) {b} h n =
    ground (arith, eq_iff k key, eq_iff c.key rule_id, get-drop_buckets rule_id key m {b = b})

-- `RemoveRule` is meant to clean up the buckets of the rule, but leaves each in place, with all that it
-- has counted, for a rule of the same id that is added later: a bucket's key is never the rule's id.
pub get-remove_rule :
    (rule : RateLimitRule) (e : AppError) (erl : ErrorRateLimiter) {b : RateLimitBucket}
    → get (generate_bucket_key rule e) erl.buckets ≡ some b
    → b.key ≡ generate_bucket_key rule e
    → get (generate_bucket_key rule e) (remove_rule rule.id erl).buckets ≡ some b
unfolding remove_rule
get-remove_rule rule e erl {b} h k =
    get-drop_buckets rule.id (generate_bucket_key rule e) erl.buckets h
      (λ same. generate_bucket_key-ne-id rule e (sym k ∙ same))
