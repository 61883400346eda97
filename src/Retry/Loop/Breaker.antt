-- ===== src/Retry/Loop/Breaker.antt =====
-- What the retry manager of internal/infrastructure/retry.go does to its circuit breaker.
use hotel_reviews_microservi.Base.{
  ℕ, zero, suc, ◌≤◌, ◌≡◌, refl, true, false, Option, Time, if◌then◌else◌, none, some, List, [], ◌∷◌,
  arith, ap, Option-cases, inl, inr,
}
use hotel_reviews_microservi.CircuitBreaker.Types.{Error, state_open, circuit_breaker}
use hotel_reviews_microservi.CircuitBreaker.Machine.{
  CircuitBreaker, record_rejection, perform_health_check,
}
use hotel_reviews_microservi.CircuitBreaker.Execute.{err}
use hotel_reviews_microservi.Retry.Types.{RetryConfig, ErrorReader}
use hotel_reviews_microservi.Retry.Backoff.{Arithmetic}
use hotel_reviews_microservi.Retry.Loop.{
  RetryManager, Environment, Operation, retry_loop, reject, check_circuit_breaker,
  execute_with_config, used_breaker,
}

-- The manager has a circuit breaker, which is open and whose health check is disabled.
abbrev pub IsBarred : RetryManager → Type 0
IsBarred rm =
    (cb : CircuitBreaker) × (rm.breaker ≡ some cb)
    × (cb.state ≡ state_open)
    × (cb.config.enable_health_check ≡ false)

-- A round of the loop of the health check, which runs where it is enabled.
abbrev pub check_health : Time → Option Error → RetryManager → RetryManager
check_health now result rm = elim rm.breaker [
  | none ↦ rm
  | some cb ↦
      if cb.config.enable_health_check
      then record rm { breaker = some (perform_health_check now result cb) }
      else rm
]

-- What may happen to the manager: an operation, in its environment, and a tick of the health check.
pub data Happening (A : Type 0) : Type 0 where
  operates : Environment A → Happening A
  ticks : Time → Option Error → Happening A

module _ (reader : ErrorReader) (calc : Arithmetic) (config : RetryConfig) {A : Type 0} where
  abbrev happen : Happening A → RetryManager → RetryManager
  happen (operates env) rm = (execute_with_config reader calc config env rm).manager
  happen (ticks now result) rm = check_health now result rm

  unfoldable pub after : List (Happening A) → RetryManager → RetryManager
  after [] rm = rm
  after (h ∷ happenings) rm = after happenings (happen h rm)

  module _ (on : config.enable_circuit_breaker ≡ true) where
    reject-IsBarred :
        (env : Environment A) (rm : RetryManager) → IsBarred rm → IsBarred (reject config rm)
    unfolding reject record_rejection
    reject-IsBarred env rm (cb, h, o, n) = (record_rejection cb, rw (on, h) refl, o, n)

    -- An open breaker refuses at once.
    retry_loop-refused :
        (env : Environment A) (more attempt backoff : ℕ) (rm : RetryManager)
        → IsBarred rm
        → env.done_before attempt ≡ none
        → retry_loop reader calc config env (suc more) attempt backoff rm ≡ record {
          manager = reject config rm;
          outcome = some (err (circuit_breaker state_open "circuit breaker is open"));
          backoff = backoff;
          calls = 0;
        }
    unfolding check_circuit_breaker retry_loop
    retry_loop-refused env more attempt backoff rm (cb, h, o, n) d =
        let used : check_circuit_breaker (used_breaker config rm)
            ≡ some (circuit_breaker state_open "circuit breaker is open") =
          rw (on, h) (rw o refl) in
        simp (retry_loop, d, used)

    retry_loop-open :
        (env : Environment A) (attempts : ℕ) (rm : RetryManager)
        → IsBarred rm
        → env.done_before 1 ≡ none
        → 1 ≤ attempts
        → (retry_loop reader calc config env attempts 1 0 rm).outcome
          ≡ some (err (circuit_breaker state_open "circuit breaker is open"))
    retry_loop-open env zero rm b d h = absurd (omega arith)
    retry_loop-open env (suc more) rm b d h =
        ap (λ (o : Operation A). o.outcome) (retry_loop-refused env more 1 0 rm b d)

    retry_loop-IsBarred :
        (env : Environment A) (more attempt backoff : ℕ) (rm : RetryManager)
        → IsBarred rm
        → let o = retry_loop reader calc config env more attempt backoff rm in
          IsBarred o.manager × (o.calls ≡ 0)
    unfolding retry_loop
    retry_loop-IsBarred env zero attempt backoff rm b = (b, refl)
    retry_loop-IsBarred env (suc more) attempt backoff rm b =
        elim (Option-cases (env.done_before attempt)) [
          | inl d ↦
              rw (retry_loop-refused env more attempt backoff rm b d)
                (reject-IsBarred env rm b, refl)
          | inr (e, d) ↦ simp (retry_loop, d) (b, refl)
        ]

    after-IsBarred :
        (happenings : List (Happening A)) (rm : RetryManager)
        → IsBarred rm
        → IsBarred (after happenings rm)
    unfolding after execute_with_config
    after-IsBarred [] rm b = b
    after-IsBarred (operates env ∷ happenings) rm b =
        after-IsBarred happenings (execute_with_config reader calc config env rm).manager
          (retry_loop-IsBarred env config.max_attempts 1 0 rm b).0
    after-IsBarred (ticks now result ∷ happenings) rm (cb, h, o, n) =
        let same : check_health now result rm ≡ rm = ground (arith, h, n) in
        rw (after, same) (after-IsBarred happenings rm (cb, h, o, n))

-- Where the circuit breaker of a manager is enabled and open and its health check is disabled, it stays open after any
-- operations of this manager and ticks of the health check, at any times, and every operation is refused: one
-- whose context is not done at first, with one attempt at least, ends with the error of the open breaker, and the
-- function is not called. The open timeout makes no difference.
pub execute_with_config-open_forever :
    (reader : ErrorReader) (calc : Arithmetic) (config : RetryConfig) {A : Type 0}
    (happenings : List (Happening A)) (env : Environment A) (rm : RetryManager)
    → config.enable_circuit_breaker ≡ true
    → IsBarred rm
    → 1 ≤ config.max_attempts
    → env.done_before 1 ≡ none
    → let rm' = after reader calc config happenings rm in
      let o = execute_with_config reader calc config env rm' in
      (o.outcome ≡ some (err (circuit_breaker state_open "circuit breaker is open")))
      × (o.calls ≡ 0)
      × IsBarred o.manager
unfolding execute_with_config
execute_with_config-open_forever reader calc config happenings env rm on b some_attempt d =
    let rm' = after reader calc config happenings rm in
    let b' = after-IsBarred reader calc config on happenings rm b in
    let (b'', c) = retry_loop-IsBarred reader calc config on env config.max_attempts 1 0 rm' b' in
    (retry_loop-open reader calc config on env config.max_attempts rm' b' d some_attempt, c, b'')
