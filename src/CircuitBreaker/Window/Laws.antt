-- ===== src/CircuitBreaker/Window/Laws.antt =====
-- The window stays well formed, and its statistics add up.
use hotel_reviews_microservi.Base.{
  ℕ, zero, suc, ◌+◌, ◌/◌, ◌%◌, ◌≤◌, ◌<◌, ◌≡◌, refl, Bool, true, false, some, List, [], ◌∷◌, arith,
  length, get_elem?, modify, length-modify, All, u64, Time, Duration, ap, ◌∙◌, Bool-cases, inl, inr,
}
use hotel_reviews_microservi.CircuitBreaker.Window.{
  WindowBucket, SlidingWindow, Stats, empty_bucket, initial_buckets, new_sliding_window, rotate,
  count_request, record_request, is_expired, add_live, sum_buckets, get_stats, no_stats,
}

abbrev pub IsBalanced : WindowBucket → Type 0
IsBalanced b = b.requests ≡ u64 (b.successes + b.failures + b.timeouts)

-- The current index is in range, and every bucket counts each request once.
pub record IsValid (w : SlidingWindow) : Type 0 where
  pub in_range : w.current_idx < length w.buckets
  pub balanced : All IsBalanced w.buckets

All-modify :
    (i : ℕ) (f : WindowBucket → WindowBucket) (bs : List WindowBucket)
    → ((b : WindowBucket) → IsBalanced b → IsBalanced (f b))
    → All IsBalanced bs
    → All IsBalanced (modify i f bs)
All-modify i f [] keep h = tt
All-modify zero f (b ∷ bs) keep h = (keep b h.0, h.1)
All-modify (suc i) f (b ∷ bs) keep h = (h.0, All-modify i f bs keep h.1)

initial_buckets-IsBalanced :
    (n i : ℕ) (now : Time) (size bucket_size : Duration)
    → All IsBalanced (initial_buckets n i now size bucket_size)
unfolding initial_buckets
initial_buckets-IsBalanced zero i now size bucket_size = tt
initial_buckets-IsBalanced (suc n) i now size bucket_size =
    (refl, initial_buckets-IsBalanced n (i + 1) now size bucket_size)

length-initial :
    (n i : ℕ) (now : Time) (size bucket_size : Duration)
    → length (initial_buckets n i now size bucket_size) ≡ n
unfolding initial_buckets
length-initial zero i now size bucket_size = refl
length-initial (suc n) i now size bucket_size =
    ap suc (length-initial n (i + 1) now size bucket_size)

pub new-IsValid :
    (now : Time) (size : Duration) (n : ℕ) {w : SlidingWindow}
    → new_sliding_window now size n ≡ some w
    → IsValid w
unfolding new_sliding_window
new-IsValid now size n h = ground (
  arith,
  length-initial n 0 now size (size / n),
  initial_buckets-IsBalanced n 0 now size (size / n),
)

count_request-IsBalanced :
    (s t : Bool) (b : WindowBucket) → IsBalanced b → IsBalanced (count_request s t b)
unfolding count_request
count_request-IsBalanced s true b h = omega arith
count_request-IsBalanced true false b h = omega arith
count_request-IsBalanced false false b h = omega arith

rotate-IsValid : (now : Time) (w : SlidingWindow) → IsValid w → IsValid (rotate now w)
unfolding rotate
rotate-IsValid now w v = grind (
  arith,
  length-modify ((w.current_idx + 1) % length w.buckets) (λ b. empty_bucket now) w.buckets,
  All-modify ((w.current_idx + 1) % length w.buckets) (λ b. empty_bucket now) w.buckets
      (λ b h. refl) v.balanced,
)

-- Recording a request keeps the window well formed.
pub record_request-IsValid :
    (now : Time) (s t : Bool) (w : SlidingWindow) → IsValid w → IsValid (record_request now s t w)
unfolding record_request
record_request-IsValid now s t w v =
    let r = rotate now w in
    let rv = rotate-IsValid now w v in
    record {
      in_range =
          omega (arith, length-modify r.current_idx (count_request s t) r.buckets, rv.in_range);
      balanced =
          All-modify r.current_idx (count_request s t) r.buckets (count_request-IsBalanced s t)
            rv.balanced;
    }

abbrev pub StatsBalanced : Stats → Type 0
StatsBalanced s = s.requests ≡ u64 (s.successes + s.failures + s.timeouts)

add_live-StatsBalanced :
    (now : Time) (size : Duration) (s : Stats) (b : WindowBucket)
    → StatsBalanced s
    → IsBalanced b
    → StatsBalanced (add_live now size s b)
unfolding add_live
add_live-StatsBalanced now size s b h k = ground arith

sum_buckets-StatsBalanced :
    (now : Time) (size : Duration) (s : Stats) (bs : List WindowBucket)
    → StatsBalanced s
    → All IsBalanced bs
    → StatsBalanced (sum_buckets now size s bs)
unfolding sum_buckets
sum_buckets-StatsBalanced now size s [] h a = h
sum_buckets-StatsBalanced now size s (b ∷ bs) h a =
    sum_buckets-StatsBalanced now size (add_live now size s b) bs
      (add_live-StatsBalanced now size s b h a.0) a.1

-- The statistics of a well formed window count each request as exactly one of a success, a failure
-- and a timeout, up to the wrap-around of the 64-bit counters.
pub get_stats-StatsBalanced :
    (now : Time) (w : SlidingWindow) → IsValid w → StatsBalanced (get_stats now w)
unfolding get_stats
get_stats-StatsBalanced now w v =
    sum_buckets-StatsBalanced now w.size no_stats w.buckets refl v.balanced

-- One more request in the statistics, of the kind that the two flags name.
abbrev pub count_in_stats : Bool → Bool → Stats → Stats
count_in_stats success true s = record s {
  requests = u64 (s.requests + 1);
  timeouts = u64 (s.timeouts + 1);
}
count_in_stats true false s = record s {
  requests = u64 (s.requests + 1);
  successes = u64 (s.successes + 1);
}
count_in_stats false false s = record s {
  requests = u64 (s.requests + 1);
  failures = u64 (s.failures + 1);
}

add_live-bumped :
    (now : Time) (size : Duration) (success t : Bool) (s : Stats) (b : WindowBucket)
    → add_live now size (count_in_stats success t s) b
      ≡ count_in_stats success t (add_live now size s b)
unfolding add_live
add_live-bumped now size success true s b = ground arith
add_live-bumped now size true false s b = ground arith
add_live-bumped now size false false s b = ground arith

add_live-counted :
    (now : Time) (size : Duration) (success t : Bool) (s : Stats) (b : WindowBucket)
    → now < b.timestamp + size
    → add_live now size s (count_request success t b)
      ≡ count_in_stats success t (add_live now size s b)
unfolding add_live count_request
add_live-counted now size success true s b h = ground arith
add_live-counted now size true false s b h = ground arith
add_live-counted now size false false s b h = ground arith

sum_buckets-bumped :
    (now : Time) (size : Duration) (success t : Bool) (s : Stats) (bs : List WindowBucket)
    → sum_buckets now size (count_in_stats success t s) bs
      ≡ count_in_stats success t (sum_buckets now size s bs)
unfolding sum_buckets
sum_buckets-bumped now size success t s [] = refl
sum_buckets-bumped now size success t s (b ∷ bs) =
    rw (add_live-bumped now size success t s b)
      (sum_buckets-bumped now size success t (add_live now size s b) bs)

-- A predicate of the element at an index, where there is one.
abbrev At : (WindowBucket → Type 0) → ℕ → List WindowBucket → Type 0
At P i [] = ⊥
At P zero (b ∷ bs) = P b
At P (suc i) (b ∷ bs) = At P i bs

sum_buckets-counted :
    (now : Time) (size : Duration) (success t : Bool) (s : Stats) (i : ℕ) (bs : List WindowBucket)
    → At (λ b. now < b.timestamp + size) i bs
    → sum_buckets now size s (modify i (count_request success t) bs)
      ≡ count_in_stats success t (sum_buckets now size s bs)
unfolding sum_buckets
sum_buckets-counted now size success t s i [] h = absurd h
sum_buckets-counted now size success t s zero (c ∷ bs) h =
    ap (λ a. sum_buckets now size a bs) (add_live-counted now size success t s c h)
    ∙ sum_buckets-bumped now size success t (add_live now size s c) bs
sum_buckets-counted now size success t s (suc i) (c ∷ bs) h =
    sum_buckets-counted now size success t (add_live now size s c) i bs h

At-modify :
    (P : WindowBucket → Type 0) (i : ℕ) (c : WindowBucket) (bs : List WindowBucket)
    → i < length bs
    → P c
    → At P i (modify i (λ b. c) bs)
At-modify P i c [] h p = absurd (omega arith)
At-modify P zero c (b ∷ bs) h p = p
At-modify P (suc i) c (b ∷ bs) h p = At-modify P i c bs (omega arith) p

is_expired-At :
    (now : Time) (bucket_size size : Duration) (i : ℕ) (bs : List WindowBucket)
    → i < length bs
    → bucket_size ≤ size
    → is_expired now bucket_size (get_elem? bs i) ≡ false
    → At (λ b. now < b.timestamp + size) i bs
unfolding is_expired
is_expired-At now bucket_size size i [] h k e = absurd (omega arith)
is_expired-At now bucket_size size zero (b ∷ bs) h k e = ground arith
is_expired-At now bucket_size size (suc i) (b ∷ bs) h k e =
    is_expired-At now bucket_size size i bs (omega arith) k e

rotate-live :
    (now : Time) (w : SlidingWindow)
    → IsValid w
    → w.bucket_size ≤ w.size
    → 0 < w.size
    → At (λ b. now < b.timestamp + w.size) (rotate now w).current_idx (rotate now w).buckets
unfolding rotate
rotate-live now w v k p =
    elim (Bool-cases (is_expired now w.bucket_size (get_elem? w.buckets w.current_idx))) [
      | inl over ↦
          rw (over, rotate)
            (At-modify (λ b. now < b.timestamp + w.size) ((w.current_idx + 1) % length w.buckets)
              (empty_bucket now) w.buckets (grind (arith, v.in_range)) (omega arith))
      | inr kept ↦
          rw (kept, rotate)
            (is_expired-At now w.bucket_size w.size w.current_idx w.buckets v.in_range k kept)
    ]

rotate-size : (now : Time) (w : SlidingWindow) → (rotate now w).size ≡ w.size
unfolding rotate
rotate-size now w = ground arith

-- In a well formed window of positive size whose buckets are no longer than the window, a request
-- recorded at `now` is in the statistics taken at `now`: they are those of the window before it,
-- moved on to the bucket of `now`, with one more request of its kind.
pub get_stats-record_request :
    (now : Time) (success t : Bool) (w : SlidingWindow)
    → IsValid w
    → w.bucket_size ≤ w.size
    → 0 < w.size
    → get_stats now (record_request now success t w)
      ≡ count_in_stats success t (get_stats now (rotate now w))
unfolding get_stats record_request
get_stats-record_request now success t w v k p =
    sum_buckets-counted now (rotate now w).size success t no_stats (rotate now w).current_idx
      (rotate now w).buckets (rw (rotate-size now w) (rotate-live now w v k p))
