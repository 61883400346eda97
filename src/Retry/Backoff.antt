-- ===== src/Retry/Backoff.antt =====
-- `calculateBackoff` and the jitter of internal/infrastructure/retry.go.
use hotel_reviews_microservi.Base.{
  ℕ, zero, suc, ◌+◌, ◌-◌, ◌*◌, ◌/◌, ◌≤◌, ◌<◌, ◌≡◌, ◌≢◌, inl, inr, ◌&&◌, Option, none, some, List,
  [], ◌∷◌, if◌then◌else◌, ltb, leb, Duration, arith, Option-cases,
}
use hotel_reviews_microservi.Retry.Types.{
  RetryStrategy, fixed_delay, exponential_backoff, linear_backoff, fibonacci_backoff, custom,
  JitterType, no_jitter, full, equal, decorrelated, RetryConfig,
}

-- The floating point products, truncated to a duration, for an attempt; they are taken to fit. And what is
-- drawn for an attempt: a number below the bound given, or an error.
pub record Arithmetic : Type 0 where
  pub exponential : RetryConfig → ℕ → Duration
  pub linear : RetryConfig → ℕ → Duration
  pub draw : ℕ → ℕ → Option ℕ

-- The number at the index, or the last one.
abbrev pub fibonacci_number : ℕ → List ℕ → ℕ
fibonacci_number i [] = 0
fibonacci_number i (n ∷ []) = n
fibonacci_number zero (n ∷ m ∷ ns) = n
fibonacci_number (suc i) (n ∷ m ∷ ns) = fibonacci_number i (m ∷ ns)

abbrev pub fibonacci_sequence : List ℕ
fibonacci_sequence =
    1 ∷ 1 ∷ 2 ∷ 3 ∷ 5 ∷ 8 ∷ 13 ∷ 21 ∷ 34 ∷ 55 ∷ 89 ∷ 144 ∷ 233 ∷ 377 ∷ 610 ∷ 987 ∷ 1597 ∷ 2584
    ∷ 4181 ∷ 6765 ∷ []

module _ (calc : Arithmetic) where
  unfoldable pub calculate_fibonacci_backoff : ℕ → RetryConfig → Duration
  calculate_fibonacci_backoff attempt config =
      config.base_delay * fibonacci_number (attempt - 1) fibonacci_sequence

  abbrev custom_delay : Option (ℕ → Duration → Duration) → ℕ → Duration → Duration
  custom_delay none attempt base = base
  custom_delay (some f) attempt base = f attempt base

  abbrev strategy_delay : RetryStrategy → ℕ → RetryConfig → Duration
  strategy_delay fixed_delay attempt config = config.base_delay
  strategy_delay exponential_backoff attempt config = calc.exponential config attempt
  strategy_delay linear_backoff attempt config = calc.linear config attempt
  strategy_delay fibonacci_backoff attempt config = calculate_fibonacci_backoff attempt config
  strategy_delay custom attempt config =
      custom_delay config.custom_backoff attempt config.base_delay

  abbrev or_least : Duration → Option ℕ → Duration
  or_least least none = least
  or_least least (some n) = least + n

  -- `draw attempt diff` stands for the random number.
  unfoldable pub random_duration : ℕ → Duration → Duration → Duration
  random_duration attempt least most =
      if leb most least then least else or_least least (calc.draw attempt (most - least))

  -- The delay with its jitter, and the last backoff time.
  unfoldable pub apply_jitter :
      JitterType → Duration → RetryConfig → ℕ → Duration → Duration × Duration
  apply_jitter no_jitter delay config attempt last = (delay, last)
  apply_jitter full delay config attempt last = (random_duration attempt 0 delay, last)
  apply_jitter equal delay config attempt last =
      (delay / 2 + random_duration attempt 0 (delay / 2), last)
  apply_jitter decorrelated delay config attempt last =
      let d =
        random_duration attempt config.base_delay (if ltb 0 last then last * 3 else delay * 3) in
      (d, d)

  -- The maximum, if there is one.
  abbrev limited : RetryConfig → Duration → Duration
  limited config delay =
      if ltb 0 config.max_delay && ltb config.max_delay delay then config.max_delay else delay

  unfoldable pub calculate_backoff : ℕ → RetryConfig → Duration → Duration × Duration
  calculate_backoff attempt config last =
      apply_jitter config.jitter_type
        (limited config (strategy_delay config.strategy attempt config)) config attempt last

  random_duration-bounded :
      ((attempt bound n : ℕ) → calc.draw attempt bound ≡ some n → n < bound)
      → (attempt : ℕ) (most : Duration) → random_duration attempt 0 most ≤ most
  unfolding random_duration
  random_duration-bounded law attempt most = elim (Option-cases (calc.draw attempt (most - 0))) [
    | inl e ↦ ground arith
    | inr (n, e) ↦ ground (arith, law attempt (most - 0) n e)
  ]

  -- Where a maximal delay is set and the jitter is not the decorrelated one, no delay is longer than the
  -- maximum, whatever the strategy and whatever is drawn below its bound.
  pub calculate_backoff-bounded :
      (attempt : ℕ) (config : RetryConfig) (last : Duration)
      → ((attempt bound n : ℕ) → calc.draw attempt bound ≡ some n → n < bound)
      → 0 < config.max_delay
      → config.jitter_type ≢ decorrelated
      → (calculate_backoff attempt config last).0 ≤ config.max_delay
  unfolding calculate_backoff apply_jitter
  calculate_backoff-bounded attempt config last law set simple =
      let d = limited config (strategy_delay config.strategy attempt config) in
      ground
        (arith, random_duration-bounded law attempt d, random_duration-bounded law attempt (d / 2))
