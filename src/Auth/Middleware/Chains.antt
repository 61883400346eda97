-- ===== src/Auth/Middleware/Chains.antt =====
-- What the chains of handlers of internal/application/auth_middleware.go let through.
use Prim.Native.String.{String}
use hotel_reviews_microservi.Base.{◌≡◌, refl, false, ◌&&◌, none, some}
use hotel_reviews_microservi.Auth.Config.{AuthMiddlewareConfig}
use hotel_reviews_microservi.Auth.Limits.{check_ip_rate_limit}
use hotel_reviews_microservi.Auth.Blacklist.{is_ip_blacklisted}
use hotel_reviews_microservi.Auth.Requests.{
  User, AuthService, Request, AuthMiddleware, error_response, Handler,
}
use hotel_reviews_microservi.Auth.Middleware.{
  authenticate_request, admit_request, authentication_middleware, require_authentication,
  require_role, optional_authentication, for_public_endpoints, for_protected_endpoints,
  for_admin_endpoints,
}

module _ (config : AuthMiddlewareConfig) (service : AuthService) {A : Type 0} (next : Handler A)
    (r : Request) where
  -- A request whose context holds no user yet is refused as unauthorized by the protected and by the
  -- admin chain, whatever credentials it carries: the credentials are not looked at, the handler is
  -- not called, and the state stays as it was.
  pub chains_unauthorized :
      (am : AuthMiddleware)
      → r.user ≡ none
      → (for_protected_endpoints config service next r am ≡ (am, error_response 401))
        × (for_admin_endpoints config service next r am ≡ (am, error_response 401))
  unfolding for_protected_endpoints for_admin_endpoints require_authentication require_role
  chains_unauthorized am h = (rw h refl, rw h refl)

  optional_authentication-found :
      (after : Handler A) (am am1 : AuthMiddleware) (user : User) (auth_type : String)
      → authenticate_request config service r am ≡ (am1, (some user, auth_type))
      → optional_authentication config service after r am
        ≡ after (record r { user = some user; auth_type = some auth_type }) am1
  unfolding optional_authentication
  optional_authentication-found after am am1 user auth_type first =
      simp (optional_authentication, first)

  -- On the public chain a request is authenticated twice. Where the first authentication finds a user and
  -- the second one finds nobody, the handler is called with that user, whatever the blacklist and the rate
  -- limit say of the user, if only the address passes.
  pub for_public_endpoints-unchecked :
      (am am1 am2 : AuthMiddleware) (user : User) (auth_type : String)
      → let r1 : Request = record r { user = some user; auth_type = some auth_type } in
        let (rl, refused) = check_ip_rate_limit config r.now r.client_ip am1.rate_limiter in
        authenticate_request config service r am ≡ (am1, (some user, auth_type))
        → (config.cors_enabled && r.is_options) ≡ false
        → is_ip_blacklisted config r.now r.client_ip am1.blacklist ≡ false
        → refused ≡ false
        → authenticate_request config service r1 (record am1 { rate_limiter = rl })
          ≡ (am2, (none, "none"))
        → for_public_endpoints config service next r am
          ≡ next (record r { user = some user; auth_type = some "none" }) am2
  unfolding for_public_endpoints authentication_middleware admit_request
  for_public_endpoints-unchecked am am1 am2 user auth_type first cors ip limit second =
      rw
        (optional_authentication-found (authentication_middleware config service next) am am1 user
          auth_type first)
        (rw (cors, ip, limit) (simp (admit_request, second)))
