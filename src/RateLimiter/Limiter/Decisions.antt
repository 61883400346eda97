-- ===== src/RateLimiter/Limiter/Decisions.antt =====
-- What `ShouldLimit` of internal/infrastructure/error_rate_limiter.go does to the limiter, for rules
-- listed in any order.
use Prim.Native.String.{String}
use hotel_reviews_microservi.Base.{
  ℕ, ◌/◌, ◌≤◌, ◌<◌, ◌≡◌, ◌≢◌, refl, subst, inl, inr, Bool, true, false, ◌&&◌, Option, none, some,
  List, [], ◌∷◌, arith, Time, Option-cases, Bool-cases,
}
use hotel_reviews_microservi.Errors.{AppError}
use hotel_reviews_microservi.RateLimiter.Types.{
  RateLimitRule, RateLimitBucket, RateLimitResult, RateLimitStats, fixed, sliding, token, leaky,
  unknown, RateLimitStrategy,
}
use hotel_reviews_microservi.RateLimiter.Bucket.{
  create_bucket, check_bucket, check_fixed_window, check_sliding_window, check_token_bucket,
  check_leaky_bucket, valid_timestamps, check_by,
}
use hotel_reviews_microservi.RateLimiter.Limiter.{
  ErrorRateLimiter, AnyError, to_app_error, rule_matches, generate_bucket_key, update_stats,
  get_bucket, check_rate_limit, limit_by, should_limit,
}
use hotel_reviews_microservi.Base.Maps.{
  get, put, get-put_ne, AllValues, get-AllValues, put-AllValues,
}

-- A limit that can be divided by, and a window of at least a nanosecond for each request.
abbrev pub IsUsable : RateLimitRule → Type 0
IsUsable rule = (0 < rule.limit) × (rule.limit ≤ rule.window)

abbrev pub IsReady : RateLimitBucket → Type 0
IsReady b = 0 < b.refill_rate

sliding_total :
    (now : Time) (b : RateLimitBucket) (rule : RateLimitRule) (valid : List Time)
    → 0 < rule.limit
    → valid_timestamps now rule.window b.timestamps ≡ valid
    → (b' : RateLimitBucket) × (r : RateLimitResult) × (check_sliding_window now b rule
        ≡ some (b', r))
      × (b'.refill_rate ≡ b.refill_rate)
unfolding check_sliding_window
sliding_total now b rule [] p e = elim (Option-cases (check_sliding_window now b rule)) [
  | inl n ↦ ground (arith, n)
  | inr ((b', r), s) ↦ (b', r, s, ground (arith, s))
]
sliding_total now b rule (t ∷ ts) p e = elim (Option-cases (check_sliding_window now b rule)) [
  | inl n ↦ ground (arith, n)
  | inr ((b', r), s) ↦ (b', r, s, ground (arith, s))
]

check_bucket_total :
    (strategy : RateLimitStrategy) (now : Time) (b : RateLimitBucket) (rule : RateLimitRule)
    → 0 < rule.limit
    → 0 < b.refill_rate
    → (b' : RateLimitBucket) × (r : RateLimitResult) × (check_by strategy now b rule ≡ some (b', r))
      × (b'.refill_rate ≡ b.refill_rate)
unfolding check_by
check_bucket_total fixed now b rule p q = (_, _, refl, unfold check_fixed_window in ground arith)
check_bucket_total sliding now b rule p q = sliding_total now b rule _ p refl
check_bucket_total token now b rule p q = elim (Option-cases (check_token_bucket now b rule)) [
  | inl n ↦ unfold check_token_bucket in ground (arith, n)
  | inr ((b', r), s) ↦ (b', r, s, unfold check_token_bucket in ground (arith, s))
]
check_bucket_total leaky now b rule p q = elim (Option-cases (check_leaky_bucket now b rule)) [
  | inl n ↦ unfold check_leaky_bucket in ground (arith, n)
  | inr ((b', r), s) ↦ (b', r, s, unfold check_leaky_bucket in ground (arith, s))
]
check_bucket_total unknown now b rule p q = (_, _, refl, refl)

div-pos : (a b : ℕ) → 0 < b → b ≤ a → 0 < a / b
div-pos a b p h = grind arith

get_bucket_total :
    (now : Time) (key : String) (rule : RateLimitRule) (o : Option RateLimitBucket)
    → IsUsable rule
    → ((b : RateLimitBucket) → o ≡ some b → IsReady b)
    → (b : RateLimitBucket) × (get_bucket now key rule o ≡ some b) × IsReady b
unfolding get_bucket create_bucket
get_bucket_total now key rule (some b) u k = (b, refl, k b refl)
get_bucket_total now key rule none u k = elim (Option-cases (create_bucket now key rule)) [
  | inl n ↦ ground (arith, n)
  | inr (b, e) ↦ (b, e, ground (arith, e, div-pos rule.window rule.limit u.0 u.1))
]

check_rate_limit_total :
    (now : Time) (rule : RateLimitRule) (e : AppError) (erl : ErrorRateLimiter)
    → IsUsable rule
    → AllValues IsReady erl.buckets
    → (erl' : ErrorRateLimiter) × (r : RateLimitResult) × (check_rate_limit now rule e erl
        ≡ some (erl', r))
      × AllValues IsReady erl'.buckets
unfolding check_rate_limit check_bucket
check_rate_limit_total now rule e erl u a =
    let key = generate_bucket_key rule e in
    let (b, g, ready) =
      get_bucket_total now key rule (get key erl.buckets) u
        (λ b. get-AllValues IsReady key erl.buckets a) in
    let (b', r, c, rate) = check_bucket_total rule.strategy now b rule u.0 ready in
    (
      record (update_stats rule.id e erl) { buckets = put key b' erl.buckets },
      r,
      ground (arith, g, c),
      put-AllValues IsReady key b' erl.buckets (rw rate ready) a,
    )

limit_by_total :
    (now : Time) (e : AppError) (rules : List (String × RateLimitRule)) (erl : ErrorRateLimiter)
    → AllValues IsUsable rules
    → AllValues IsReady erl.buckets
    → (erl' : ErrorRateLimiter) × (limited : Bool) × (limit_by now e rules erl
        ≡ some (erl', limited))
      × AllValues IsReady erl'.buckets
unfolding limit_by
limit_by_total now e [] erl u a = (erl, false, refl, a)
limit_by_total now e ((id, rule) ∷ rules) erl u a =
    elim (Bool-cases (rule.enabled && rule_matches rule e)) [
      | inr skip ↦ rw skip (limit_by_total now e rules erl u.1 a)
      | inl applies ↦
          let (erl', r, c, a') = check_rate_limit_total now rule e erl u.0 a in
          elim (Bool-cases r.allowed) [
            | inr refused ↦ (erl', true, ground arith, a')
            | inl allowed ↦
                let (erl'', l, c', a'') = limit_by_total now e rules erl' u.1 a' in
                (erl'', l, ground arith, a'')
          ]
    ]

-- Where every rule has a positive limit and a window of at least a nanosecond for each request, and
-- every bucket a positive refill time, `should_limit` does not panic, and every bucket still has one.
pub should_limit_total :
    (now : Time) (user : String) (err : AnyError) (erl : ErrorRateLimiter)
    → AllValues IsUsable erl.rules
    → AllValues IsReady erl.buckets
    → (erl' : ErrorRateLimiter) × (limited : Bool) × (should_limit now user err erl
        ≡ some (erl', limited))
      × AllValues IsReady erl'.buckets
unfolding should_limit
should_limit_total now user err erl u a =
    limit_by_total now (to_app_error now user err) erl.rules erl u a

update_stats_isolated :
    (rule_id id : String) (e : AppError) (erl : ErrorRateLimiter)
    → id ≢ rule_id
    → (get id (update_stats rule_id e erl).stats ≡ get id erl.stats)
      × ((update_stats rule_id e erl).rules ≡ erl.rules)
unfolding update_stats
update_stats_isolated rule_id id e erl n = (get-put_ne rule_id id n _ erl.stats, refl)

-- A check of one rule for one error touches only the bucket of its key and the statistics of its rule:
-- no other bucket and no other statistics change, nor do the rules.
pub check_rate_limit_isolated :
    (now : Time) (rule : RateLimitRule) (e : AppError) (erl erl' : ErrorRateLimiter)
    (r : RateLimitResult) (key id : String)
    → check_rate_limit now rule e erl ≡ some (erl', r)
    → key ≢ generate_bucket_key rule e
    → id ≢ rule.id
    → (get key erl'.buckets ≡ get key erl.buckets)
      × (get id erl'.stats ≡ get id erl.stats)
      × (erl'.rules ≡ erl.rules)
unfolding check_rate_limit
check_rate_limit_isolated now rule e erl erl' r key id h n m =
    let here = generate_bucket_key rule e in
    elim (Option-cases (get_bucket now here rule (get here erl.buckets))) [
      | inl x ↦ ground (arith, x)
      | inr (b, x) ↦ elim (Option-cases (check_bucket now b rule)) [
        | inl y ↦ ground (arith, x, y)
        | inr ((b', r'), y) ↦ ground (
          arith,
          x,
          y,
          get-put_ne here key n b' erl.buckets,
          update_stats_isolated rule.id id e erl m,
        )
      ]
    ]

-- Neither the allowed nor the blocked requests are counted.
abbrev pub IsUnsplit : RateLimitStats → Type 0
IsUnsplit s = (s.allowed_requests ≡ 0) × (s.blocked_requests ≡ 0)

update_stats-IsUnsplit :
    (id : String) (e : AppError) (erl : ErrorRateLimiter)
    → AllValues IsUnsplit erl.stats
    → AllValues IsUnsplit (update_stats id e erl).stats
unfolding update_stats
update_stats-IsUnsplit id e erl a = elim (Option-cases (get id erl.stats)) [
  | inl n ↦ rw n (put-AllValues IsUnsplit id _ erl.stats (refl, refl) a)
  | inr (s, h) ↦
      rw h (put-AllValues IsUnsplit id _ erl.stats (get-AllValues IsUnsplit id erl.stats a h) a)
]

check_rate_limit-IsUnsplit :
    (now : Time) (rule : RateLimitRule) (e : AppError) (erl erl' : ErrorRateLimiter)
    (r : RateLimitResult)
    → check_rate_limit now rule e erl ≡ some (erl', r)
    → AllValues IsUnsplit erl.stats
    → AllValues IsUnsplit erl'.stats
unfolding check_rate_limit
check_rate_limit-IsUnsplit now rule e erl erl' r h a =
    let here = generate_bucket_key rule e in
    elim (Option-cases (get_bucket now here rule (get here erl.buckets))) [
      | inl x ↦ ground (arith, x)
      | inr (b, x) ↦ elim (Option-cases (check_bucket now b rule)) [
        | inl y ↦ ground (arith, x, y)
        | inr ((b', r'), y) ↦
            let same : (update_stats rule.id e erl).stats ≡ erl'.stats = ground (arith, x, y) in
            subst (AllValues IsUnsplit) same (update_stats-IsUnsplit rule.id e erl a)
      ]
    ]

limit_by-IsUnsplit :
    (now : Time) (e : AppError) (rules : List (String × RateLimitRule))
    (erl erl' : ErrorRateLimiter) (limited : Bool)
    → limit_by now e rules erl ≡ some (erl', limited)
    → AllValues IsUnsplit erl.stats
    → AllValues IsUnsplit erl'.stats
unfolding limit_by
limit_by-IsUnsplit now e [] erl erl' limited h a =
    let same : erl.stats ≡ erl'.stats = ground arith in subst (AllValues IsUnsplit) same a
limit_by-IsUnsplit now e ((id, rule) ∷ rules) erl erl' limited h a =
    elim (Bool-cases (rule.enabled && rule_matches rule e)) [
      | inr skip ↦ limit_by-IsUnsplit now e rules erl erl' limited (ground arith) a
      | inl applies ↦ elim (Option-cases (check_rate_limit now rule e erl)) [
        | inl x ↦ ground (arith, x)
        | inr ((erl₁, r), x) ↦
            let a₁ = check_rate_limit-IsUnsplit now rule e erl erl₁ r x a in
            elim (Bool-cases r.allowed) [
              | inl go_on ↦ limit_by-IsUnsplit now e rules erl₁ erl' limited (ground (arith, x)) a₁
              | inr refused ↦
                  let same : erl₁.stats ≡ erl'.stats = ground (arith, x) in
                  subst (AllValues IsUnsplit) same a₁
            ]
      ]
    ]

-- No decision is counted as allowed or blocked: where the statistics hold zeros in both fields, as those
-- of a new limiter do, they still do after `should_limit`, whatever it answers.
pub should_limit-IsUnsplit :
    (now : Time) (user : String) (err : AnyError) (erl erl' : ErrorRateLimiter) (limited : Bool)
    → should_limit now user err erl ≡ some (erl', limited)
    → AllValues IsUnsplit erl.stats
    → AllValues IsUnsplit erl'.stats
unfolding should_limit
should_limit-IsUnsplit now user err erl erl' limited h a =
    limit_by-IsUnsplit now (to_app_error now user err) erl.rules erl erl' limited h a
