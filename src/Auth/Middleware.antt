-- ===== src/Auth/Middleware.antt =====
-- The handlers of `AuthMiddleware` and `AuthMiddlewareChain` of internal/application/auth_middleware.go.
-- A handler takes the request and the state of the middleware to the new state and the response.
pub mod Chains
pub mod Lockout
mod Examples
use Prim.Native.String.{String, ◌++◌}
use text.Mathlib.Text.{◌==◌}
use hotel_reviews_microservi.Base.{
  ℕ, ◌+◌, Bool, true, false, ◌&&◌, ◌||◌, Option, none, some, List, [], ◌∷◌, if◌then◌else◌, Time,
}
use hotel_reviews_microservi.Base.Maps.{get, put}
use hotel_reviews_microservi.CircuitBreaker.Machine.{CircuitBreaker}
use hotel_reviews_microservi.CircuitBreaker.Execute.{
  Outcome, ok, err, Environment, Clock, execute_with_fallback,
}
use hotel_reviews_microservi.Auth.Config.{AuthMiddlewareConfig}
use hotel_reviews_microservi.Auth.Limits.{RateLimiter, check_user_rate_limit, check_ip_rate_limit}
use hotel_reviews_microservi.Auth.Blacklist.{
  BlacklistManager, is_ip_blacklisted, is_user_blacklisted,
}
use hotel_reviews_microservi.Auth.Sessions.{Sessions, authenticate_session}
use hotel_reviews_microservi.Auth.Requests.{
  User, AuthService, Request, AuthMiddleware, Response, error_response, preflight, served, Handler,
  increment_counter, record_auth, record_rate_limit, record_blacklist,
}

-- Whether the text is in the list.
abbrev is_among : String → List String → Bool
is_among x [] = false
is_among x (y ∷ ys) = y == x || is_among x ys

-- Whether the user has one of the required roles.
abbrev pub has_role : List String → List String → Bool
has_role roles [] = false
has_role roles (x ∷ required) = is_among x roles || has_role roles required

abbrev pub accepted {ℓ} : {A : Type ℓ} → Outcome A → Option A
accepted (ok a) = some a
accepted (err e) = none

module _ (config : AuthMiddlewareConfig) (service : AuthService) where
  -- A validation, through the circuit breaker if it is enabled.
  unfoldable pub validate {ℓ} :
      {A : Type ℓ} → Clock → Environment A → AuthMiddleware → AuthMiddleware × Option A
  validate clock env am =
      if config.circuit_breaker_enabled
      then (let (cb, o) = execute_with_fallback clock env none [] am.circuit_breaker in
          (record am { circuit_breaker = cb }, accepted o))
      else (am, accepted (env.answer 0))

  unfoldable pub authenticate_jwt : Request → AuthMiddleware → AuthMiddleware × Option User
  authenticate_jwt r am = elim r.token [
    | none ↦ (am, none)
    | some token ↦ validate r.token_clock (service.validate_token token) am
  ]

  abbrev pub user_of : Option String → Option User
  user_of none = none
  user_of (some id) = service.get_user id

  unfoldable pub authenticate_api_key : Request → AuthMiddleware → AuthMiddleware × Option User
  authenticate_api_key r am =
      if config.api_key_enabled
      then elim r.api_key [
        | none ↦ (am, none)
        | some key ↦
            let (am', id) = validate r.api_key_clock (service.validate_api_key key) am in
            (am', user_of id)
      ]
      else (am, none)

  -- `authenticateSession`, with the cookie's session and its user, where no other call uses the sessions in the
  -- meantime.
  unfoldable pub authenticate_cookie : Request → AuthMiddleware → AuthMiddleware × Option User
  authenticate_cookie r am = elim r.session_cookie [
    | none ↦ (am, none)
    | some session_id ↦
        let (m, found) =
          authenticate_session config r.now r.now (λ m. m) session_id am.session_manager in
        (
          record am { session_manager = m },
          elim found [ none ↦ none | some s ↦ service.get_user s.user_id ],
        )
  ]

  -- The credentials are tried in turn; the error of `authenticateRequest` is always nil.
  unfoldable pub authenticate_request :
      Request → AuthMiddleware → AuthMiddleware × (Option User × String)
  authenticate_request r am =
      let (am1, by_jwt) = authenticate_jwt r am in
      let (am2, by_api_key) = authenticate_api_key r am1 in
      let (am3, by_session) = authenticate_cookie r am2 in
      elim by_jwt [
        | some user ↦ (am1, (some user, "jwt"))
        | none ↦ elim by_api_key [
          | some user ↦ (am2, (some user, "apikey"))
          | none ↦ elim by_session [
            | some user ↦ (am3, (some user, "session"))
            | none ↦ (am3, (none, "none"))
          ]
        ]
      ]

  module _ {A : Type 0} (next : Handler A) where
    -- The checks of an authenticated user, and the next handler.
    unfoldable pub admit_user :
        Request → User → String → AuthMiddleware → AuthMiddleware × Response A
    admit_user r user auth_type am =
        let (rl, refused) = check_user_rate_limit config r.now user.id am.rate_limiter in
        let am' : AuthMiddleware = record am { rate_limiter = rl } in
        if is_user_blacklisted config r.now user.id am.blacklist
        then (record_blacklist "user" "blocked" am, error_response 403)
        else if refused
        then (record_rate_limit "user" am', error_response 429)
        else next (record r { user = some user; auth_type = some auth_type })
            (record_auth auth_type "success" am')

    unfoldable pub admit_request : Request → AuthMiddleware → AuthMiddleware × Response A
    admit_request r am =
        let (am', (user, auth_type)) = authenticate_request r am in
        elim user [
          | none ↦ next (record r { auth_type = some auth_type }) am'
          | some u ↦ admit_user r u auth_type am'
        ]

    unfoldable pub authentication_middleware : Handler A
    authentication_middleware r am =
        let (rl, refused) = check_ip_rate_limit config r.now r.client_ip am.rate_limiter in
        let am' : AuthMiddleware = record am { rate_limiter = rl } in
        if config.cors_enabled && r.is_options
        then (am, preflight)
        else if is_ip_blacklisted config r.now r.client_ip am.blacklist
        then (record_blacklist "ip" "blocked" am, error_response 403)
        else if refused
        then (record_rate_limit "ip" am', error_response 429)
        else admit_request r am'

    unfoldable pub require_authentication : Handler A
    require_authentication r am = elim r.user [
      | none ↦ (am, error_response 401)
      | some user ↦ next r am
    ]

    unfoldable pub require_permission : String → String → Handler A
    require_permission resource action r am = elim r.user [
      | none ↦ (am, error_response 401)
      | some user ↦ elim (service.check_permission user.id resource action) [
        | err e ↦ (am, error_response 500)
        | ok false ↦ (am, error_response 403)
        | ok true ↦ next r am
      ]
    ]

    unfoldable pub require_role : List String → Handler A
    require_role required r am = elim r.user [
      | none ↦ (am, error_response 401)
      | some user ↦ if has_role user.roles required then next r am else (am, error_response 403)
    ]

    unfoldable pub optional_authentication : Handler A
    optional_authentication r am =
        let (am', (user, auth_type)) = authenticate_request r am in
        elim user [
          | none ↦ next r am'
          | some u ↦ next (record r { user = some u; auth_type = some auth_type }) am'
        ]

  module _ {A : Type 0} (next : Handler A) where
    -- The chains, whose outermost handler writes the audit log and is left out.
    unfoldable pub for_public_endpoints : Handler A
    for_public_endpoints = optional_authentication (authentication_middleware next)

    unfoldable pub for_protected_endpoints : Handler A
    for_protected_endpoints = require_authentication (authentication_middleware next)

    unfoldable pub for_admin_endpoints : Handler A
    for_admin_endpoints =
        require_role (require_authentication (authentication_middleware next)) ("admin" ∷ [])
