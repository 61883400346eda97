-- ===== src/CircuitBreaker/Calls.antt =====
-- The calls that change a circuit breaker, as data, and sequences of them: one such sequence is one
-- interleaving of the methods that concurrent requests run. A request is a `can_execute`, and later a
-- `record_result` or a `record_rejection`; the retry manager records results by itself.
use hotel_reviews_microservi.Base.{Bool, Option, none, some, List, [], ◌∷◌, Time, Duration}
use hotel_reviews_microservi.CircuitBreaker.Types.{Error}
use hotel_reviews_microservi.CircuitBreaker.Machine.{
  CircuitBreaker, can_execute, record_rejection, record_result, record_success, record_failure,
  record_fallback, perform_health_check, transition_to_open, transition_to_half_open,
  transition_to_closed, reset,
}

pub data Call : Type 0 where
  admission : Call
  rejection : Call
  result : Option Error → Duration → Call
  success failure : Call
  fallback : Bool → Call
  health_check : Option Error → Call
  force_open force_closed force_half_open : Call
  reset_call : Call

-- A panic leaves the breaker as it was.
abbrev pub or_same : CircuitBreaker → Option CircuitBreaker → CircuitBreaker
or_same cb none = cb
or_same cb (some cb') = cb'

unfoldable pub step : Time → Call → CircuitBreaker → CircuitBreaker
step now admission cb = (can_execute now cb).0
step now rejection cb = record_rejection cb
step now (result err duration) cb = record_result now err duration cb
step now success cb = record_success now cb
step now failure cb = record_failure now cb
step now (fallback failed) cb = record_fallback failed cb
step now (health_check err) cb = perform_health_check now err cb
step now force_open cb = transition_to_open now cb
step now force_closed cb = transition_to_closed now cb
step now force_half_open cb = transition_to_half_open now cb
step now reset_call cb = or_same cb (reset now cb)

unfoldable pub run : List (Time × Call) → CircuitBreaker → CircuitBreaker
run [] cb = cb
run ((now, c) ∷ cs) cb = run cs (step now c cb)
