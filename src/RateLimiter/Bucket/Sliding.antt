-- ===== src/RateLimiter/Bucket/Sliding.antt =====
-- The sliding window of internal/infrastructure/error_rate_limiter.go implements its specification:
-- a request is allowed exactly when fewer than `limit` requests were allowed in the window before it.
use Prim.Native.String.{String}
use hotel_reviews_microservi.Base.{
  ℕ, suc, ◌+◌, ◌-◌, ◌≤◌, ◌<◌, ◌≡◌, refl, ◌∙◌, Bool, true, false, Option, none, some, List, [], ◌∷◌,
  arith, ltb, if◌then◌else◌, length, Time, Duration, Bool-cases, inl, inr, IsOrdered,
}
use hotel_reviews_microservi.RateLimiter.Types.{RateLimitRule, RateLimitBucket, RateLimitResult}
use hotel_reviews_microservi.RateLimiter.Bucket.{
  valid_timestamps, push_back, refuse_sliding, check_sliding_window, create_bucket, allow,
}

-- How many of the times lie in the window that ends at `now`.
pub recent : Time → Duration → List Time → ℕ
recent now window [] = 0
recent now window (t ∷ ts) =
    if ltb now (t + window) then suc (recent now window ts) else recent now window ts

-- The specification: the decisions at the given times, after requests were allowed at `history`.
unfoldable pub allowed_by_history : ℕ → Duration → List Time → List Time → List Bool
unfolding recent
allowed_by_history limit window history [] = []
allowed_by_history limit window history (now ∷ ts) =
    if ltb (recent now window history) limit
    then true ∷ allowed_by_history limit window (now ∷ history) ts
    else false ∷ allowed_by_history limit window history ts

-- The code: the decisions of `check_sliding_window` on one bucket at the given times.
pub sliding_decisions : RateLimitRule → RateLimitBucket → List Time → Option (List Bool)
sliding_decisions rule b [] = some []
sliding_decisions rule b (now ∷ ts) = elim (check_sliding_window now b rule) [
  | none ↦ none
  | some (b', r) ↦ elim (sliding_decisions rule b' ts) [
    | none ↦ none
    | some rest ↦ some (r.allowed ∷ rest)
  ]
]

length-valid_timestamps :
    (now : Time) (window : Duration) (ts : List Time)
    → length (valid_timestamps now window ts) ≡ recent now window ts
unfolding valid_timestamps recent
length-valid_timestamps now window [] = refl
length-valid_timestamps now window (t ∷ ts) = ground (arith, length-valid_timestamps now window ts)

recent-valid_timestamps :
    (now later : Time) (window : Duration) (ts : List Time)
    → now ≤ later
    → recent later window (valid_timestamps now window ts) ≡ recent later window ts
unfolding valid_timestamps recent
recent-valid_timestamps now later window [] h = refl
recent-valid_timestamps now later window (t ∷ ts) h =
    ground (arith, recent-valid_timestamps now later window ts h)

recent-push_back :
    (later : Time) (window : Duration) (ts : List Time) (t : Time)
    → recent later window (push_back ts t) ≡ recent later window (t ∷ ts)
unfolding recent
recent-push_back later window [] t = refl
recent-push_back later window (u ∷ ts) t = ground (arith, recent-push_back later window ts t)

-- The bucket holds what counts of the history, from the time `from` on.
abbrev Tracks : Duration → Time → List Time → List Time → Type 0
Tracks window from history ts = (t : Time) → from ≤ t → recent t window ts ≡ recent t window history

Tracks-allow :
    (window : Duration) (from now : Time) (history ts : List Time)
    → from ≤ now
    → Tracks window from history ts
    → Tracks window now (now ∷ history) (push_back (valid_timestamps now window ts) now)
unfolding recent
Tracks-allow window from now history ts h k t l = ground (
  arith,
  recent-push_back t window (valid_timestamps now window ts) now,
  recent-valid_timestamps now t window ts l,
  k t (omega arith),
)

Tracks-refuse :
    (window : Duration) (from now : Time) (history ts : List Time)
    → from ≤ now
    → Tracks window from history ts
    → Tracks window now history (valid_timestamps now window ts)
Tracks-refuse window from now history ts h k t l =
    recent-valid_timestamps now t window ts l ∙ k t (omega arith)

refuse_sliding_lem :
    (now : Time) (b : RateLimitBucket) (rule : RateLimitRule) (valid : List Time)
    → 0 < length valid
    → (r : RateLimitResult) × (refuse_sliding now b rule valid ≡ some (b, r)) × (r.allowed ≡ false)
unfolding refuse_sliding
refuse_sliding_lem now b rule [] h = absurd (omega arith)
refuse_sliding_lem now b rule (t ∷ ts) h = (_, refl, refl)

module _ (now : Time) (b : RateLimitBucket) (rule : RateLimitRule) where
  check_allows :
      recent now rule.window b.timestamps < rule.limit
      → (b' : RateLimitBucket) × (r : RateLimitResult) × (check_sliding_window now b rule
          ≡ some (b', r))
        × (r.allowed ≡ true)
        × (b'.timestamps ≡ push_back (valid_timestamps now rule.window b.timestamps) now)
  unfolding check_sliding_window
  check_allows h =
      let valid = valid_timestamps now rule.window b.timestamps in
      let kept : RateLimitBucket = record b { timestamps = valid } in
      let added : RateLimitBucket = record kept {
        timestamps = push_back valid now;
        last_access = now;
      } in
      (
        added,
        allow rule kept (rule.limit - length added.timestamps) (now + rule.window),
        ground (arith, length-valid_timestamps now rule.window b.timestamps),
        refl,
        refl,
      )

  check_refuses :
      0 < rule.limit
      → rule.limit ≤ recent now rule.window b.timestamps
      → (b' : RateLimitBucket) × (r : RateLimitResult) × (check_sliding_window now b rule
          ≡ some (b', r))
        × (r.allowed ≡ false)
        × (b'.timestamps ≡ valid_timestamps now rule.window b.timestamps)
  unfolding check_sliding_window
  check_refuses p h =
      let valid = valid_timestamps now rule.window b.timestamps in
      let b' : RateLimitBucket = record b { timestamps = valid } in
      let n = length-valid_timestamps now rule.window b.timestamps in
      let (r, e, d) = refuse_sliding_lem now b' rule valid (omega arith) in
      (b', r, ground arith, d, refl)

sliding_decisions_from :
    (rule : RateLimitRule) (b : RateLimitBucket) (from : Time) (history ts : List Time)
    → 0 < rule.limit
    → IsOrdered from ts
    → Tracks rule.window from history b.timestamps
    → sliding_decisions rule b ts ≡ some (allowed_by_history rule.limit rule.window history ts)
unfolding sliding_decisions allowed_by_history
sliding_decisions_from rule b from history [] p o k = refl
sliding_decisions_from rule b from history (now ∷ ts) p o k =
    elim (Bool-cases (ltb (recent now rule.window history) rule.limit)) [
      | inl few ↦
          let (b', r, e, a, s) = check_allows now b rule (ground (arith, k now o.0)) in
          ground (
            arith,
            e,
            a,
            sliding_decisions_from rule b' now (now ∷ history) ts p o.1
                (rw s (Tracks-allow rule.window from now history b.timestamps o.0 k)),
          )
      | inr many ↦
          let (b', r, e, a, s) = check_refuses now b rule p (ground (arith, k now o.0)) in
          ground (
            arith,
            e,
            a,
            sliding_decisions_from rule b' now history ts p o.1
                (rw s (Tracks-refuse rule.window from now history b.timestamps o.0 k)),
          )
    ]

-- On a new bucket, for a clock that does not go back, the sliding window never panics and decides as
-- its specification: a request is allowed exactly when fewer than `limit` were allowed in the window
-- before it.
pub sliding_decisions_lem :
    (rule : RateLimitRule) (key : String) (created : Time) (ts : List Time) {b : RateLimitBucket}
    → create_bucket created key rule ≡ some b
    → IsOrdered created ts
    → sliding_decisions rule b ts ≡ some (allowed_by_history rule.limit rule.window [] ts)
unfolding create_bucket
sliding_decisions_lem rule key created ts {b} e o =
    let empty : b.timestamps ≡ [] = ground arith in
    sliding_decisions_from rule b created [] ts (ground arith) o (λ t l. rw empty)
