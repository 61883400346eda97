-- ===== src/RateLimiter/Bucket/Token.antt =====
-- The token bucket and the leaky bucket of internal/infrastructure/error_rate_limiter.go: how many
-- requests they allow in the time that passes.
use native.Mathlib.Nat.{mul-le-mul_right, min-le_right}
use hotel_reviews_microservi.Base.{
  IsOrdered, ℕ, zero, suc, ◌+◌, ◌-◌, ◌*◌, ◌/◌, ◌≤◌, ◌<◌, ◌≡◌, refl, subst, ◌∙◌, leb, min, ltb, ◌==◌,
  Bool-cases, inl, inr, Bool, true, false, Option, none, some, List, [], ◌∷◌, arith, if◌then◌else◌,
  Time,
}
use hotel_reviews_microservi.RateLimiter.Types.{RateLimitRule, RateLimitBucket, RateLimitResult}
use hotel_reviews_microservi.RateLimiter.Bucket.{
  check_token_bucket, check_leaky_bucket, refill, leak,
}

-- A check, as one of the two strategies makes it.
abbrev pub Check : Type 0
Check = Time → RateLimitBucket → RateLimitRule → Option (RateLimitBucket × RateLimitResult)

-- The bucket after checks at the given times, and how many were allowed.
pub count_allowed :
    Check → RateLimitRule → RateLimitBucket → List Time → Option (RateLimitBucket × ℕ)
count_allowed check rule b [] = some (b, 0)
count_allowed check rule b (now ∷ ts) = elim (check now b rule) [
  | none ↦ none
  | some (b', r) ↦ elim (count_allowed check rule b' ts) [
    | none ↦ none
    | some (b'', n) ↦ some (b'', if r.allowed then suc n else n)
  ]
]

abbrev cost : Bool → ℕ → ℕ
cost allowed rate = if allowed then rate else 0

le_sub_add : (c d : ℕ) → c ≤ c - d + d
le_sub_add c d = omega arith

-- The time that `a / r` refills stand for is no more than `a`, also when the sum is capped.
refill_paid : (m t a r : ℕ) → min m (t + a / r) * r ≤ t * r + a
refill_paid m t a r =
    let capped = mul-le-mul_right r (min-le_right m (t + a / r)) in
    let paid : a / r * r ≤ a = grind arith in omega arith

leak_paid : (c a r : ℕ) → c * r ≤ (c - a / r) * r + a
leak_paid c a r =
    let kept = mul-le-mul_right r (le_sub_add c (a / r)) in
    let paid : a / r * r ≤ a = grind arith in omega arith

take_one : (t r : ℕ) → 0 < t → r + (t - 1) * r ≡ t * r
take_one zero r h = absurd (omega arith)
take_one (suc t) r h = let e : suc t - 1 ≡ t = omega arith in rw e (omega arith)

zero-test : (n : ℕ) → 0 < n → (n == 0) ≡ false
zero-test n h = ground arith

-- A relation between the buckets before and after checks and what the allowed requests cost.
abbrev pub Bill : Type 1
Bill = RateLimitBucket → RateLimitBucket → ℕ → Type 0

-- What one check makes of the bucket: it does not panic, keeps the rate, and pays.
abbrev Pays : Bill → Time → RateLimitBucket → Option (RateLimitBucket × RateLimitResult) → Type 0
Pays P now b none = ⊥
Pays P now b (some (b', r)) =
    (b'.refill_rate ≡ b.refill_rate)
    × (b.last_access ≤ b'.last_access)
    × (b'.last_access ≤ now)
    × P b b' (cost r.allowed b.refill_rate)

-- The tokens left and what was spent are paid by the tokens before and the time that passed, and
-- there are no more tokens than fit.
abbrev pub TokenBill : Bill
TokenBill b b' spent =
    (spent + b'.tokens * b.refill_rate + b.last_access ≤ b.tokens * b.refill_rate + b'.last_access)
    × (b'.max_tokens ≡ b.max_tokens)
    × (b.tokens ≤ b.max_tokens → b'.tokens ≤ b'.max_tokens)

-- What was spent is in the bucket, or leaked out in the time that passed, and the bucket does not
-- overflow.
abbrev pub LeakyBill : RateLimitRule → Bill
LeakyBill rule b b' spent =
    (spent + b.count * b.refill_rate + b.last_access ≤ b'.count * b.refill_rate + b'.last_access)
    × (b.count ≤ rule.limit → b'.count ≤ rule.limit)

refill_pays :
    (now : Time) (b : RateLimitBucket)
    → b.last_access ≤ now
    → let b' = refill now b in
      (b'.refill_rate ≡ b.refill_rate)
      × (b.last_access ≤ b'.last_access)
      × (b'.last_access ≤ now)
      × (b'.tokens * b.refill_rate + b.last_access ≤ b.tokens * b.refill_rate + b'.last_access)
      × (b'.max_tokens ≡ b.max_tokens)
      × (b.tokens ≤ b.max_tokens → b'.tokens ≤ b'.max_tokens)
unfolding refill
refill_pays now b h = elim (Bool-cases (ltb 0 ((now - b.last_access) / b.refill_rate))) [
  | inl some_time ↦
      let paid = refill_paid b.max_tokens b.tokens (now - b.last_access) b.refill_rate in
      rw (some_time, refill) (refl, h, omega arith, omega arith, refl, λ f. omega arith)
  | inr no_time ↦ rw (no_time, refill) (refl, omega arith, h, omega arith, refl, λ f. f)
]

token-Pays :
    (now : Time) (b : RateLimitBucket) (rule : RateLimitRule)
    → 0 < b.refill_rate
    → b.last_access ≤ now
    → Pays TokenBill now b (check_token_bucket now b rule)
unfolding check_token_bucket
token-Pays now b rule p h =
    let (r, l, n, t, m, f) = refill_pays now b h in
    elim (Bool-cases ((refill now b).tokens == 0)) [
      | inl none_left ↦
          rw (zero-test b.refill_rate p, none_left, check_token_bucket)
            (r, l, n, (omega arith, m, λ g. omega (arith, f g)))
      | inr left ↦
          let one = take_one (refill now b).tokens b.refill_rate (ground arith) in
          rw (zero-test b.refill_rate p, left, check_token_bucket)
            (r, h, omega arith, (omega arith, m, λ g. omega (arith, f g)))
    ]

cost_more :
    (allowed : Bool) (m rate : ℕ)
    → cost allowed rate + m * rate ≡ (if allowed then suc m else m) * rate
cost_more true m rate = omega arith
cost_more false m rate = omega arith

leak_pays :
    (now : Time) (b : RateLimitBucket)
    → b.last_access ≤ now
    → let b' = leak now b in
      (b'.refill_rate ≡ b.refill_rate)
      × (b.last_access ≤ b'.last_access)
      × (b'.last_access ≤ now)
      × (b.count * b.refill_rate + b.last_access ≤ b'.count * b.refill_rate + b'.last_access)
      × (b'.count ≤ b.count)
unfolding leak
leak_pays now b h = elim (Bool-cases (ltb 0 ((now - b.last_access) / b.refill_rate))) [
  | inl some_time ↦
      let paid = leak_paid b.count (now - b.last_access) b.refill_rate in
      rw (some_time, leak) (refl, h, omega arith, omega arith, omega arith)
  | inr no_time ↦ rw (no_time, leak) (refl, omega arith, h, omega arith, omega arith)
]

leaky-Pays :
    (rule : RateLimitRule) (now : Time) (b : RateLimitBucket)
    → 0 < b.refill_rate
    → b.last_access ≤ now
    → Pays (LeakyBill rule) now b (check_leaky_bucket now b rule)
unfolding check_leaky_bucket
leaky-Pays rule now b p h =
    let (r, l, n, t, m) = leak_pays now b h in
    elim (Bool-cases (leb rule.limit (leak now b).count)) [
      | inl full ↦
          rw (zero-test b.refill_rate p, full, check_leaky_bucket)
            (r, l, n, (omega arith, λ g. omega arith))
      | inr room ↦
          rw (zero-test b.refill_rate p, room, check_leaky_bucket)
            (r, h, omega arith, (omega arith, λ g. ground arith))
    ]

TokenBill_trans :
    (b b' b'' : RateLimitBucket) (m n : ℕ)
    → b'.refill_rate ≡ b.refill_rate
    → TokenBill b b' m
    → TokenBill b' b'' n
    → TokenBill b b'' (m + n)
TokenBill_trans b b' b'' m n e (p, k, f) (q, l, g) =
    let q' =
      subst (λ r. n + b''.tokens * r + b'.last_access ≤ b'.tokens * r + b''.last_access) e q in
    (omega arith, l ∙ k, λ h. g (f h))

LeakyBill_trans :
    (rule : RateLimitRule) (b b' b'' : RateLimitBucket) (m n : ℕ)
    → b'.refill_rate ≡ b.refill_rate
    → LeakyBill rule b b' m
    → LeakyBill rule b' b'' n
    → LeakyBill rule b b'' (m + n)
LeakyBill_trans rule b b' b'' m n e (p, f) (q, g) =
    let q' = subst (λ r. n + b'.count * r + b'.last_access ≤ b''.count * r + b''.last_access) e q in
    (omega arith, λ h. g (f h))

-- What holds of each check holds of all of them together.
module _ (P : Bill) (check : Check) (rule : RateLimitRule)
    (none_spent : (b : RateLimitBucket) → P b b 0)
    (together : (b b' b'' : RateLimitBucket) (m n : ℕ)
      → b'.refill_rate ≡ b.refill_rate
      → P b b' m
      → P b' b'' n
      → P b b'' (m + n))
    (pays : (now : Time) (b : RateLimitBucket)
      → 0 < b.refill_rate
      → b.last_access ≤ now
      → Pays P now b (check now b rule)) where
  -- Every check answers, and all that is allowed is paid for.
  abbrev AllPaid : RateLimitBucket → List Time → Type 0
  AllPaid b ts =
      (b' : RateLimitBucket) × (n : ℕ) × (count_allowed check rule b ts ≡ some (b', n))
      × P b b' (n * b.refill_rate)

  AllPaid-cons :
      (b : RateLimitBucket) (now : Time) (ts : List Time)
      (c : Option (RateLimitBucket × RateLimitResult))
      → check now b rule ≡ c
      → Pays P now b c
      → ((b' : RateLimitBucket)
          → b'.refill_rate ≡ b.refill_rate
          → b'.last_access ≤ now
          → AllPaid b' ts)
      → AllPaid b (now ∷ ts)
  unfolding count_allowed
  AllPaid-cons b now ts none e q ih = absurd q
  AllPaid-cons b now ts (some (b', r)) e (rate, l, n, q) ih =
      let (b'', m, e', q') = ih b' rate n in
      let total : cost r.allowed b.refill_rate + m * b'.refill_rate
          ≡ (if r.allowed then suc m else m) * b.refill_rate =
        rw rate (cost_more r.allowed m b.refill_rate) in
      (
        b'',
        if r.allowed then suc m else m,
        ground (arith, e, e'),
        subst (P b b'') total (together b b' b'' _ _ rate q q'),
      )

  count_allowed-AllPaid :
      (b : RateLimitBucket) (last : Time) (ts : List Time)
      → 0 < b.refill_rate
      → b.last_access ≤ last
      → IsOrdered last ts
      → AllPaid b ts
  unfolding count_allowed
  count_allowed-AllPaid b last [] p h o =
      let free : 0 ≡ 0 * b.refill_rate = omega arith in
      (b, 0, refl, subst (P b b) free (none_spent b))
  count_allowed-AllPaid b last (now ∷ ts) p h o =
      AllPaid-cons b now ts (check now b rule) refl (pays now b p (omega arith))
        (λ b' e l. count_allowed-AllPaid b' now ts (omega arith) l o.1)

module _ (rule : RateLimitRule) (b : RateLimitBucket) (ts : List Time) where
  -- A token bucket with a positive refill time, checked by a clock that does not go back, never
  -- panics; the requests that it allows, each worth the time of one refill, are paid by the tokens
  -- that it had and the time that has passed; and it does not come to hold more than its maximum.
  pub count_allowed-token :
      0 < b.refill_rate
      → IsOrdered b.last_access ts
      → (b' : RateLimitBucket) × (n : ℕ) × (count_allowed check_token_bucket rule b ts
          ≡ some (b', n))
        × TokenBill b b' (n * b.refill_rate)
  count_allowed-token p o =
      count_allowed-AllPaid TokenBill check_token_bucket rule (λ b. (omega arith, refl, λ f. f))
        TokenBill_trans (λ now b. token-Pays now b rule) b b.last_access ts p (omega arith) o

  -- A leaky bucket with a positive leak time, checked by a clock that does not go back, never panics;
  -- the requests that it allows, each worth the time of one leak, are still in it or have leaked out in
  -- the time that has passed; and it does not come to hold more than the rule's limit.
  pub count_allowed-leaky :
      0 < b.refill_rate
      → IsOrdered b.last_access ts
      → (b' : RateLimitBucket) × (n : ℕ) × (count_allowed check_leaky_bucket rule b ts
          ≡ some (b', n))
        × LeakyBill rule b b' (n * b.refill_rate)
  count_allowed-leaky p o =
      count_allowed-AllPaid (LeakyBill rule) check_leaky_bucket rule (λ b. (omega arith, λ f. f))
        (LeakyBill_trans rule) (leaky-Pays rule) b b.last_access ts p (omega arith) o
