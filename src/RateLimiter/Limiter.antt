-- ===== src/RateLimiter/Limiter.antt =====
-- `ErrorRateLimiter` of internal/infrastructure/error_rate_limiter.go: rules, buckets by key and
-- statistics by rule. A Go map is an association list; the order in which Go would range over the rules
-- is the order of the list, so what holds for every list holds for every order. `none` is a panic.
pub mod Keys
pub mod Decisions
use Prim.Native.String.{String, ◌++◌}
use text.Mathlib.Text.{◌==◌}
use hotel_reviews_microservi.Base.{
  ℕ, ◌+◌, ◌*◌, Bool, true, false, ◌&&◌, not, Option, none, some, List, [], ◌∷◌, if◌then◌else◌, leb,
  ltb, Time, Duration, length,
}
use hotel_reviews_microservi.Errors.{
  ErrorType, ErrorType-discrete, system, ErrorSeverity, ErrorSeverity-discrete, medium, AppError,
}
use hotel_reviews_microservi.RateLimiter.Types.{
  RateLimitRule, RateLimitBucket, RateLimitResult, RateLimitStats, default_rules, minute,
}
use hotel_reviews_microservi.RateLimiter.Bucket.{create_bucket, check_bucket}
use hotel_reviews_microservi.Base.Maps.{get, put, delete}

pub record ErrorRateLimiter : Type 0 where
  pub rules : List (String × RateLimitRule)
  pub buckets : List (String × RateLimitBucket)
  pub stats : List (String × RateLimitStats)

add_rules : List RateLimitRule → List (String × RateLimitRule) → List (String × RateLimitRule)
add_rules [] m = m
add_rules (r ∷ rs) m = add_rules rs (put r.id r m)

unfoldable pub new_error_rate_limiter : Time → ErrorRateLimiter
unfolding add_rules put
new_error_rate_limiter now = record {
  rules = add_rules (default_rules now) [];
  buckets = [];
  stats = [];
}

-- What the loops over `rule.ErrorTypes` and `rule.Severities` look for.
contains_type : List ErrorType → ErrorType → Bool
contains_type [] t = false
contains_type (x ∷ xs) t = elim (ErrorType-discrete x t) [
  | yes e ↦ true
  | no n ↦ contains_type xs t
]

contains_severity : List ErrorSeverity → ErrorSeverity → Bool
contains_severity [] s = false
contains_severity (x ∷ xs) s = elim (ErrorSeverity-discrete x s) [
  | yes e ↦ true
  | no n ↦ contains_severity xs s
]

abbrev is_empty {ℓ} : {A : Type ℓ} → List A → Bool
is_empty [] = true
is_empty (x ∷ xs) = false

unfoldable pub rule_matches : RateLimitRule → AppError → Bool
unfolding contains_type contains_severity ErrorType-discrete ErrorSeverity-discrete
rule_matches rule e =
    (if is_empty rule.error_types then true else contains_type rule.error_types e.error_type)
    && (if is_empty rule.severities then true else contains_severity rule.severities e.severity)

-- `fmt.Sprintf("%s", keyParts)`: the parts in brackets, with a space between two.
join_parts : List String → String
join_parts [] = ""
join_parts (p ∷ []) = p
join_parts (p ∷ q ∷ ps) = p ++ (" " ++ join_parts (q ∷ ps))

abbrev when : Bool → List String → List String → List String
when true parts rest = parts
when false parts rest = rest

abbrev append_parts : List String → List String → List String
append_parts [] ys = ys
append_parts (x ∷ xs) ys = x ∷ append_parts xs ys

-- The parts behind the rule's id; "default" where there are none.
other_parts : RateLimitRule → AppError → List String
other_parts rule e = append_parts (when rule.global_limit ("global" ∷ []) []) (
    append_parts (when (rule.user_based && not (e.user_id == "")) ("user" ∷ e.user_id ∷ []) [])
      (when rule.ip_based ("ip" ∷ "127.0.0.1" ∷ []) []))

abbrev or_default : List String → List String
or_default [] = "default" ∷ []
or_default (p ∷ ps) = p ∷ ps

unfoldable pub generate_bucket_key : RateLimitRule → AppError → String
unfolding join_parts other_parts
generate_bucket_key rule e = "[" ++ (join_parts (rule.id ∷ or_default (other_parts rule e)) ++ "]")

new_stats : String → AppError → RateLimitStats
new_stats rule_id e = record {
  rule_id = rule_id;
  total_requests = 0;
  allowed_requests = 0;
  blocked_requests = 0;
  last_request = 0;
  first_request = e.timestamp;
}

abbrev or_new : RateLimitStats → Option RateLimitStats → RateLimitStats
or_new s none = s
or_new s (some t) = t

unfoldable pub update_stats : String → AppError → ErrorRateLimiter → ErrorRateLimiter
unfolding new_stats
update_stats rule_id e erl =
    let s = or_new (new_stats rule_id e) (get rule_id erl.stats) in
    record erl {
      stats =
          put rule_id
            (record s { total_requests = s.total_requests + 1; last_request = e.timestamp })
            erl.stats;
    }

pub get_bucket : Time → String → RateLimitRule → Option RateLimitBucket → Option RateLimitBucket
get_bucket now key rule (some b) = some b
get_bucket now key rule none = create_bucket now key rule

unfoldable pub check_rate_limit :
    Time → RateLimitRule → AppError → ErrorRateLimiter → Option (ErrorRateLimiter × RateLimitResult)
unfolding get_bucket
check_rate_limit now rule e erl =
    let key = generate_bucket_key rule e in
    elim (get_bucket now key rule (get key erl.buckets)) [
      | none ↦ none
      | some b ↦ elim (check_bucket now b rule) [
        | none ↦ none
        | some (b', r) ↦
            let counted = update_stats rule.id e erl in
            some (record counted { buckets = put key b' erl.buckets }, r)
      ]
    ]

-- The loop of `ShouldLimit` over the rules.
unfoldable pub limit_by :
    Time
    → AppError
    → List (String × RateLimitRule)
    → ErrorRateLimiter
    → Option (ErrorRateLimiter × Bool)
limit_by now e [] erl = some (erl, false)
limit_by now e ((id, rule) ∷ rules) erl =
    if rule.enabled && rule_matches rule e
    then (elim (check_rate_limit now rule e erl) [
      | none ↦ none
      | some (erl', r) ↦ elim r.allowed [
        | true ↦ limit_by now e rules erl'
        | false ↦ some (erl', true)
      ]
    ])
    else limit_by now e rules erl

-- An error is an `AppError` or any other error, for which a minimal one is made with the user of the
-- context.
pub data AnyError : Type 0 where
  app_error : AppError → AnyError
  other_error : AnyError

unfoldable pub to_app_error : Time → String → AnyError → AppError
to_app_error now user (app_error e) = e
to_app_error now user other_error = record {
  error_type = system;
  severity = medium;
  timestamp = now;
  user_id = user;
}

unfoldable pub should_limit :
    Time → String → AnyError → ErrorRateLimiter → Option (ErrorRateLimiter × Bool)
should_limit now user err erl = limit_by now (to_app_error now user err) erl.rules erl

unfoldable pub add_rule : RateLimitRule → ErrorRateLimiter → ErrorRateLimiter
add_rule rule erl = record erl { rules = put rule.id rule erl.rules }

-- The loop of `RemoveRule` over the buckets.
unfoldable pub drop_buckets :
    String → List (String × RateLimitBucket) → List (String × RateLimitBucket)
drop_buckets rule_id [] = []
drop_buckets rule_id ((k, b) ∷ m) =
    if b.key == rule_id then drop_buckets rule_id m else (k, b) ∷ drop_buckets rule_id m

unfoldable pub remove_rule : String → ErrorRateLimiter → ErrorRateLimiter
remove_rule rule_id erl = record erl {
  rules = delete rule_id erl.rules;
  buckets = drop_buckets rule_id erl.buckets;
}

reset_one : Time → RateLimitBucket → RateLimitBucket
reset_one now b = record b { count = 0; last_reset = now; timestamps = []; tokens = b.max_tokens }

unfoldable pub reset_bucket : Time → String → ErrorRateLimiter → ErrorRateLimiter
unfolding reset_one
reset_bucket now key erl = elim (get key erl.buckets) [
  | none ↦ erl
  | some b ↦ record erl { buckets = put key (reset_one now b) erl.buckets }
]

reset_each : Time → List (String × RateLimitBucket) → List (String × RateLimitBucket)
reset_each now [] = []
reset_each now ((k, b) ∷ m) = (k, reset_one now b) ∷ reset_each now m

unfoldable pub reset_all_buckets : Time → ErrorRateLimiter → ErrorRateLimiter
unfolding reset_each reset_one
reset_all_buckets now erl = record erl { buckets = reset_each now erl.buckets }

-- The two loops of `performCleanup`, over buckets not used for an hour and statistics of a day ago.
cleanup_buckets : Time → List (String × RateLimitBucket) → List (String × RateLimitBucket)
cleanup_buckets now [] = []
cleanup_buckets now ((k, b) ∷ m) =
    if leb (b.last_access + 60 * minute) now
    then cleanup_buckets now m
    else (k, b) ∷ cleanup_buckets now m

cleanup_stats : Time → List (String × RateLimitStats) → List (String × RateLimitStats)
cleanup_stats now [] = []
cleanup_stats now ((k, s) ∷ m) =
    if leb (s.last_request + 24 * (60 * minute)) now
    then cleanup_stats now m
    else (k, s) ∷ cleanup_stats now m

unfoldable pub perform_cleanup : Time → ErrorRateLimiter → ErrorRateLimiter
unfolding cleanup_buckets cleanup_stats
perform_cleanup now erl = record erl {
  buckets = cleanup_buckets now erl.buckets;
  stats = cleanup_stats now erl.stats;
}
