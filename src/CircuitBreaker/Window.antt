-- ===== src/CircuitBreaker/Window.antt =====
-- `SlidingWindow` of internal/infrastructure/circuit_breaker.go: time buckets of request counts.
-- An index out of range is a runtime panic in Go and changes nothing here; the laws of
-- Window/Laws.antt show that it does not occur.
pub mod Laws
use hotel_reviews_microservi.Base.{
  ℕ, zero, suc, ◌+◌, ◌-◌, ◌*◌, ◌/◌, ◌%◌, Bool, true, false, Option, none, some, List, [], ◌∷◌, ltb,
  leb, ◌==◌, if◌then◌else◌, length, get_elem?, modify, u64, Time, Duration,
}

pub record WindowBucket : Type 0 where
  pub timestamp : Time
  pub requests : ℕ
  pub successes : ℕ
  pub failures : ℕ
  pub timeouts : ℕ

abbrev pub empty_bucket : Time → WindowBucket
empty_bucket at = record { timestamp = at; requests = 0; successes = 0; failures = 0; timeouts = 0 }

pub record SlidingWindow : Type 0 where
  pub buckets : List WindowBucket
  pub size : Duration
  pub bucket_size : Duration
  pub current_idx : ℕ

-- The loop over `buckets[i]`, from the index `i`, for `n` buckets.
initial_buckets : ℕ → ℕ → Time → Duration → Duration → List WindowBucket
initial_buckets zero i now size bucket_size = []
initial_buckets (suc n) i now size bucket_size =
    empty_bucket (now - size + i * bucket_size) ∷ initial_buckets n (i + 1) now size bucket_size

-- `none` is the panic of the division by a bucket count of 0.
unfoldable pub new_sliding_window : Time → Duration → ℕ → Option SlidingWindow
unfolding initial_buckets
new_sliding_window now size bucket_count =
    if bucket_count == 0
    then none
    else some (record {
      buckets = initial_buckets bucket_count 0 now size (size / bucket_count);
      size = size;
      bucket_size = size / bucket_count;
      current_idx = 0;
    })

-- `now.Sub(w.buckets[w.currentIdx].timestamp) >= w.bucketSize`.
is_expired : Time → Duration → Option WindowBucket → Bool
is_expired now bucket_size none = false
is_expired now bucket_size (some b) = leb (b.timestamp + bucket_size) now

-- Moves on to the next bucket, emptied, when the current one is over.
pub rotate : Time → SlidingWindow → SlidingWindow
unfolding is_expired
rotate now w =
    if is_expired now w.bucket_size (get_elem? w.buckets w.current_idx)
    then (let next = (w.current_idx + 1) % length w.buckets in
        record w { current_idx = next; buckets = modify next (λ b. empty_bucket now) w.buckets })
    else w

-- Counts one request, and it as a timeout, a success or a failure.
count_request : Bool → Bool → WindowBucket → WindowBucket
count_request success true b = record b {
  requests = u64 (b.requests + 1);
  timeouts = u64 (b.timeouts + 1);
}
count_request true false b = record b {
  requests = u64 (b.requests + 1);
  successes = u64 (b.successes + 1);
}
count_request false false b = record b {
  requests = u64 (b.requests + 1);
  failures = u64 (b.failures + 1);
}

unfoldable pub record_request : Time → Bool → Bool → SlidingWindow → SlidingWindow
unfolding rotate count_request
record_request now success timeout w =
    let r = rotate now w in
    record r { buckets = modify r.current_idx (count_request success timeout) r.buckets }

pub record Stats : Type 0 where
  pub requests : ℕ
  pub successes : ℕ
  pub failures : ℕ
  pub timeouts : ℕ

abbrev pub no_stats : Stats
no_stats = record { requests = 0; successes = 0; failures = 0; timeouts = 0 }

add_bucket : Stats → WindowBucket → Stats
add_bucket s b = record {
  requests = u64 (s.requests + b.requests);
  successes = u64 (s.successes + b.successes);
  failures = u64 (s.failures + b.failures);
  timeouts = u64 (s.timeouts + b.timeouts);
}

-- `bucket.timestamp.After(now.Add(-w.size))` is the test.
add_live : Time → Duration → Stats → WindowBucket → Stats
unfolding add_bucket
add_live now size s b = if ltb now (b.timestamp + size) then add_bucket s b else s

-- The loop of `GetStats`.
sum_buckets : Time → Duration → Stats → List WindowBucket → Stats
sum_buckets now size s [] = s
sum_buckets now size s (b ∷ bs) = sum_buckets now size (add_live now size s b) bs

unfoldable pub get_stats : Time → SlidingWindow → Stats
unfolding sum_buckets add_live
get_stats now w = sum_buckets now w.size no_stats w.buckets
