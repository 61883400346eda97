-- ===== src/Auth/Middleware/Lockout.antt =====
-- The circuit breaker around the validation of tokens, in internal/application/auth_middleware.go, is
-- shared by all requests.
use Prim.Native.String.{String}
use hotel_reviews_microservi.Base.{
  ℕ, suc, ◌∙◌, Option-cases, ◌+◌, ◌^◌, ◌≤◌, ◌<◌, ◌≡◌, refl, inl, inr, ◌⊎◌, true, none, some, List,
  [], ◌∷◌, arith, All, length, Time, Duration, ◌-◌,
}
use hotel_reviews_microservi.CircuitBreaker.Types.{
  Error, CircuitBreakerConfig, state_closed, state_open, circuit_breaker,
}
use hotel_reviews_microservi.CircuitBreaker.Machine.{
  CircuitBreaker, can_execute, record_rejection, record_result, update_metrics, record_failure,
  should_open,
}
use hotel_reviews_microservi.CircuitBreaker.Execute.{
  err, Environment, Clock, or_fallback, execute_with_retry, execute_with_fallback,
}
use hotel_reviews_microservi.CircuitBreaker.Calls.{run}
use hotel_reviews_microservi.CircuitBreaker.Periods.{can_execute-open_period}
use hotel_reviews_microservi.Auth.Config.{AuthMiddlewareConfig}
use hotel_reviews_microservi.Auth.Requests.{User, AuthService, Request, AuthMiddleware}
use hotel_reviews_microservi.Auth.Middleware.{validate, authenticate_jwt, accepted}

-- The breaker is open, and stays so until the deadline.
record IsShut (deadline : Time) (cb : CircuitBreaker) : Type 0 where
  open_state : cb.state ≡ state_open
  long : deadline ≤ cb.last_state_change + cb.config.open_timeout

can_execute-closed :
    (now : Time) (cb : CircuitBreaker) → cb.state ≡ state_closed → can_execute now cb ≡ (cb, none)
unfolding can_execute
can_execute-closed now cb c = ground arith

-- A failure opens a closed breaker, or is counted below the limit.
record_result-failed :
    (now : Time) (e : Error) (d : Duration) (cb : CircuitBreaker)
    → cb.state ≡ state_closed
    → cb.consecutive_failures + 1 < 2 ^ 32
    → let cb' = record_result now (some e) d cb in
      (cb'.config ≡ cb.config)
      × (((cb'.state ≡ state_open) × (cb'.last_state_change ≡ now))
          ⊎ ((cb'.state ≡ state_closed)
              × (cb'.consecutive_failures ≡ cb.consecutive_failures + 1)
              × (cb.consecutive_failures + 1 < cb.config.consecutive_failures_limit)))
unfolding record_result update_metrics record_failure should_open
record_result-failed now e d cb c h = ground arith

module _ {ℓ} {A : Type ℓ} (clock : Clock) (env : Environment A) (cb : CircuitBreaker) where
  execute-IsShut :
      (deadline : Time)
      → clock.checked < deadline
      → IsShut deadline cb
      → execute_with_fallback clock env none [] cb
        ≡ (record_rejection cb, err (circuit_breaker state_open "circuit breaker is open"))
  unfolding execute_with_fallback or_fallback run
  execute-IsShut deadline c s = simp (
    execute_with_fallback,
    or_fallback,
    can_execute-open_period cb [] clock.checked s.open_state tt (omega (arith, s.long)),
  )

  execute-closed :
      (e : Error)
      → cb.state ≡ state_closed
      → (execute_with_retry cb.config env).outcome ≡ err e
      → execute_with_fallback clock env none [] cb
        ≡ (record_result clock.finished (some e) (clock.finished - clock.started) cb, err e)
  unfolding execute_with_fallback or_fallback run
  execute-closed e c f =
      simp (execute_with_fallback, or_fallback, can_execute-closed clock.checked cb c, f)

-- The state after requests whose tokens are validated in turn.
unfoldable pub after_tokens :
    AuthMiddlewareConfig → AuthService → List Request → AuthMiddleware → AuthMiddleware
after_tokens config service [] am = am
after_tokens config service (r ∷ rs) am =
    after_tokens config service rs (authenticate_jwt config service r am).0

module _ (config : AuthMiddlewareConfig) (service : AuthService) (breaker : CircuitBreakerConfig)
    (start : Time) where
  -- The request carries a token that is never valid, and is handled in the period from `start` on.
  abbrev pub IsInvalid : Request → Type 0
  IsInvalid r =
      (token : String) × (e : Error) × (r.token ≡ some token)
      × ((execute_with_retry breaker (service.validate_token token)).outcome ≡ err e)
      × (r.token_clock.checked < start + breaker.open_timeout)
      × (start ≤ r.token_clock.finished)

  -- The breaker is shut for the period, or closed with failures that fewer than `n` more bring to the limit.
  abbrev Doomed : ℕ → CircuitBreaker → Type 0
  Doomed n cb =
      (cb.config ≡ breaker)
      × (IsShut (start + breaker.open_timeout) cb
          ⊎ ((cb.state ≡ state_closed)
              × (cb.consecutive_failures < cb.config.consecutive_failures_limit)
              × (cb.config.consecutive_failures_limit ≤ cb.consecutive_failures + n)
              × (cb.consecutive_failures + n < 2 ^ 32)))

  execute-Doomed :
      (n : ℕ) (clock : Clock) (env : Environment User) (cb : CircuitBreaker) (e : Error)
      → (execute_with_retry breaker env).outcome ≡ err e
      → clock.checked < start + breaker.open_timeout
      → start ≤ clock.finished
      → Doomed (suc n) cb
      → Doomed n (execute_with_fallback clock env none [] cb).0
  execute-Doomed n clock env cb e f c s (k, inl shut) =
      rw (execute-IsShut clock env cb (start + breaker.open_timeout) c shut) (
        unfold record_rejection in
        (k, inl (record { open_state = shut.open_state; long = shut.long })))
  execute-Doomed n clock env cb e f c s (k, inr (closed, below, reaches, fits)) =
      let (kept, counted) =
        record_result-failed clock.finished e (clock.finished - clock.started) cb closed
          (omega arith) in
      rw (execute-closed clock env cb e closed (rw k f)) (
        kept ∙ k,
        elim counted [
          | inl (o, at) ↦ inl (record { open_state = o; long = rw (at, kept, k) (omega arith) })
          | inr (c', count, more) ↦
              inr
                (c', rw (kept, count) more, rw (kept, count) (omega arith), rw count (omega arith))
        ],
      )

  module _ (on : config.circuit_breaker_enabled ≡ true) where
    jwt-token :
        (r : Request) (am : AuthMiddleware) (token : String)
        → r.token ≡ some token
        → authenticate_jwt config service r am ≡ (
            let (cb, o) =
              execute_with_fallback r.token_clock
                (service.validate_token token)
                none
                []
                am.circuit_breaker in
            (record am { circuit_breaker = cb }, accepted o))
    unfolding authenticate_jwt validate
    jwt-token r am token h = rw (h, on) refl

    after_tokens-Doomed :
        (rs : List Request) (am : AuthMiddleware)
        → All IsInvalid rs
        → Doomed (length rs) am.circuit_breaker
        → Doomed 0 (after_tokens config service rs am).circuit_breaker
    unfolding after_tokens
    after_tokens-Doomed [] am a d = d
    after_tokens-Doomed (r ∷ rs) am ((token, e, t, f, c, s), a) d =
        after_tokens-Doomed rs (authenticate_jwt config service r am).0 a (
          rw (jwt-token r am token t) (
            execute-Doomed (length rs) r.token_clock (service.validate_token token)
              am.circuit_breaker e f c s d))

    jwt-IsShut :
        (r : Request) (am : AuthMiddleware)
        → IsShut (start + breaker.open_timeout) am.circuit_breaker
        → r.token_clock.checked < start + breaker.open_timeout
        → (authenticate_jwt config service r am).1 ≡ none
    jwt-IsShut r am shut c = elim (Option-cases r.token) [
      | inl h ↦ unfold authenticate_jwt in rw h refl
      | inr (token, h) ↦
          rw
            (
              jwt-token r am token h,
              execute-IsShut r.token_clock (service.validate_token token) am.circuit_breaker
                  (start + breaker.open_timeout) c shut,
            )
            refl
    ]

-- Where the circuit breaker is enabled and closed, requests with invalid tokens, as many as bring the
-- failures in a row to their limit, lock everyone out: from then on, within the open timeout from the first
-- moment on, no token is accepted, a valid one neither, whoever has sent the invalid ones. The counter must
-- not wrap.
pub authenticate_jwt-locked_out :
    (config : AuthMiddlewareConfig) (service : AuthService) (start : Time) (rs : List Request)
    (r : Request) (am : AuthMiddleware)
    → let cb = am.circuit_breaker in
      config.circuit_breaker_enabled ≡ true
      → cb.state ≡ state_closed
      → cb.consecutive_failures < cb.config.consecutive_failures_limit
      → cb.config.consecutive_failures_limit ≤ cb.consecutive_failures + length rs
      → cb.consecutive_failures + length rs < 2 ^ 32
      → All (IsInvalid config service cb.config start) rs
      → r.token_clock.checked < start + cb.config.open_timeout
      → (authenticate_jwt config service r (after_tokens config service rs am)).1 ≡ none
authenticate_jwt-locked_out config service start rs r am on closed below reaches fits a c =
    let breaker = am.circuit_breaker.config in
    let (k, d) =
      after_tokens-Doomed config service breaker start on rs am a
        (refl, inr (closed, below, reaches, fits)) in
    elim d [
      | inl shut ↦
          jwt-IsShut config service breaker start on r (after_tokens config service rs am) shut c
      | inr (_, less, more, _) ↦ absurd (omega arith)
    ]
