-- ===== src/CircuitBreaker/Transitions.antt =====
-- Which calls move a circuit breaker from one state to another, and under which conditions.
use hotel_reviews_microservi.Base.{
  ◌+◌, ◌*◌, ◌≤◌, ◌<◌, ◌≡◌, refl, ◌⊎◌, ◌≢◌, inl, inr, Bool, true, false, none, some, arith, u32, u64,
  Time,
}
use hotel_reviews_microservi.CircuitBreaker.Types.{state_closed, state_open, state_half_open}
use hotel_reviews_microservi.CircuitBreaker.Window.{get_stats}
use hotel_reviews_microservi.CircuitBreaker.Machine.{
  CircuitBreaker, can_execute, record_rejection, record_result, record_success, record_failure,
  record_fallback, perform_health_check, update_metrics, is_timeout_error, transition_to_half_open,
  should_open, should_transition_to_half_open,
}
use hotel_reviews_microservi.CircuitBreaker.Calls.{
  Call, admission, rejection, result, success, failure, fallback, health_check, force_open,
  force_closed, force_half_open, reset_call, step,
}

abbrev pub is_failure : Call → Bool
is_failure failure = true
is_failure (result (some e) d) = true
is_failure (health_check (some e)) = true
is_failure _ = false

abbrev pub is_probe : Call → Bool
is_probe admission = true
is_probe (health_check none) = true
is_probe _ = false

abbrev pub reports_success : Call → Bool
reports_success success = true
reports_success (result none d) = true
reports_success _ = false

-- The operator's calls.
abbrev pub is_forced : Call → Bool
is_forced force_open = true
is_forced force_closed = true
is_forced force_half_open = true
is_forced reset_call = true
is_forced _ = false

-- Enough failures in a row, or a window with enough requests of which too many failed.
abbrev pub TooManyFailures : Time → CircuitBreaker → Type 0
TooManyFailures now cb =
    let s = get_stats now cb.window in
    let failed = u64 (s.failures + s.timeouts) in
    (cb.config.consecutive_failures_limit ≤ cb.consecutive_failures)
    ⊎ ((cb.config.minimum_request_count ≤ s.requests)
        × ((cb.config.failure_threshold ≤ failed) ⊎ (s.requests < 2 * failed)))

-- The change of state from `cb` to `cb'` by the call `c` at the time `now`.
pub data Transition (now : Time) (c : Call) (cb cb' : CircuitBreaker) : Type 0 where
  stay :
      cb'.state ≡ cb.state → cb'.last_state_change ≡ cb.last_state_change → Transition now c cb cb'
  trip :
      is_failure c ≡ true
      → cb.state ≢ state_open
      → TooManyFailures now cb'
      → cb'.state ≡ state_open
      → Transition now c cb cb'
  probe :
      is_probe c ≡ true
      → cb.state ≡ state_open
      → cb.last_state_change + cb.config.open_timeout ≤ now
      → cb'.state ≡ state_half_open
      → Transition now c cb cb'
  recover :
      reports_success c ≡ true
      → cb.state ≡ state_half_open
      → cb.config.success_threshold ≤ u32 (cb.consecutive_successes + 1)
      → cb'.state ≡ state_closed
      → Transition now c cb cb'
  forced : is_forced c ≡ true → Transition now c cb cb'

abbrev Stays : CircuitBreaker → CircuitBreaker → Type 0
Stays cb cb' = (cb'.state ≡ cb.state) × (cb'.last_state_change ≡ cb.last_state_change)

abbrev Trips : Time → CircuitBreaker → CircuitBreaker → Type 0
Trips now cb cb' = (cb.state ≢ state_open) × TooManyFailures now cb' × (cb'.state ≡ state_open)

abbrev Probes : Time → CircuitBreaker → CircuitBreaker → Type 0
Probes now cb cb' =
    (cb.state ≡ state_open)
    × (cb.last_state_change + cb.config.open_timeout ≤ now)
    × (cb'.state ≡ state_half_open)

abbrev Recovers : CircuitBreaker → CircuitBreaker → Type 0
Recovers cb cb' =
    (cb.state ≡ state_half_open)
    × (cb.config.success_threshold ≤ u32 (cb.consecutive_successes + 1))
    × (cb'.state ≡ state_closed)

record_failure_cases :
    (now : Time) (cb : CircuitBreaker)
    → Stays cb (record_failure now cb) ⊎ Trips now cb (record_failure now cb)
unfolding record_failure should_open
record_failure_cases now cb = ground arith

record_success_cases :
    (now : Time) (cb : CircuitBreaker)
    → Stays cb (record_success now cb) ⊎ Recovers cb (record_success now cb)
unfolding record_success
record_success_cases now cb = ground arith

can_execute_cases :
    (now : Time) (cb : CircuitBreaker)
    → Stays cb (can_execute now cb).0 ⊎ Probes now cb (can_execute now cb).0
unfolding can_execute
can_execute_cases now cb = ground arith

passed_check_cases :
    (now : Time) (cb : CircuitBreaker)
    → Stays cb (perform_health_check now none cb) ⊎ Probes now cb (perform_health_check now none cb)
unfolding perform_health_check transition_to_half_open should_transition_to_half_open
passed_check_cases now cb = ground arith

module _ (now : Time) (c : Call) (cb : CircuitBreaker) {cb' : CircuitBreaker} where
  fail_move : is_failure c ≡ true → Stays cb cb' ⊎ Trips now cb cb' → Transition now c cb cb'
  fail_move f (inl s) = stay s.0 s.1
  fail_move f (inr t) = trip f t.0 t.1 t.2

  success_move : reports_success c ≡ true → Stays cb cb' ⊎ Recovers cb cb' → Transition now c cb cb'
  success_move f (inl s) = stay s.0 s.1
  success_move f (inr r) = recover f r.0 r.1 r.2

  probe_move : is_probe c ≡ true → Stays cb cb' ⊎ Probes now cb cb' → Transition now c cb cb'
  probe_move f (inl s) = stay s.0 s.1
  probe_move f (inr p) = probe f p.0 p.1 p.2

-- A call moves the breaker only along the edges of the state machine, and only under their
-- conditions, unless it is one of the operator's: a reported failure opens a breaker that is not open,
-- when the failures in a row reach their limit, or the window holds enough requests and too many of
-- them failed; an admission or a passed health check takes an open breaker to half-open, once the
-- open timeout is over; a reported success closes a half-open breaker, when the successes in a row
-- reach the threshold; else the state and the time of its last change stay.
pub step-Transition :
    (now : Time) (c : Call) (cb : CircuitBreaker) → Transition now c cb (step now c cb)
unfolding step
step-Transition now admission cb = probe_move now admission cb refl (can_execute_cases now cb)
step-Transition now rejection cb = unfold record_rejection in stay refl refl
step-Transition now (result none d) cb =
    success_move now (result none d) cb refl
      (unfold record_result is_timeout_error update_metrics in record_success_cases now _)
step-Transition now (result (some e) d) cb =
    fail_move now (result (some e) d) cb refl
      (unfold record_result update_metrics in record_failure_cases now _)
step-Transition now success cb = success_move now success cb refl (record_success_cases now cb)
step-Transition now failure cb = fail_move now failure cb refl (record_failure_cases now cb)
step-Transition now (fallback failed) cb = unfold record_fallback in stay refl refl
step-Transition now (health_check none) cb =
    probe_move now (health_check none) cb refl (passed_check_cases now cb)
step-Transition now (health_check (some e)) cb =
    fail_move now (health_check (some e)) cb refl
      (unfold perform_health_check in ground (arith, record_failure_cases now cb))
step-Transition now force_open cb = forced refl
step-Transition now force_closed cb = forced refl
step-Transition now force_half_open cb = forced refl
step-Transition now reset_call cb = forced refl
