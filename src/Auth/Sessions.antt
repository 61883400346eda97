-- ===== src/Auth/Sessions.antt =====
-- `SessionManager` of internal/application/auth_middleware.go. A user is given by the text of the UUID;
-- the identifier of a new session, which a library draws, is an argument.
pub mod Bound
pub mod Revived
use Prim.Native.String.{String}
use text.Mathlib.Text.{◌==◌}
use hotel_reviews_microservi.Base.{
  ℕ, suc, ◌+◌, Bool, true, false, ◌&&◌, Option, none, some, List, [], ◌∷◌, if◌then◌else◌, ltb, leb,
  Time,
}
use hotel_reviews_microservi.Base.Maps.{get, put, delete_if, map_values}
use hotel_reviews_microservi.Auth.Config.{AuthMiddlewareConfig}

pub record AuthSession : Type 0 where
  pub id : String
  pub user_id : String
  pub created_at : Time
  pub last_activity : Time
  pub ip_address : String
  pub user_agent : String
  pub is_active : Bool
  pub expires_at : Time

abbrev pub Sessions : Type 0
Sessions = List (String × AuthSession)

-- A session of the user that is active and not expired.
abbrev pub is_counted : String → Time → AuthSession → Bool
is_counted user_id now s = s.user_id == user_id && s.is_active && ltb now s.expires_at

unfoldable pub count_active : String → Time → Sessions → ℕ
count_active user_id now [] = 0
count_active user_id now (e ∷ m) =
    let rest = count_active user_id now m in if is_counted user_id now e.1 then suc rest else rest

module _ (config : AuthMiddlewareConfig) (now : Time) where
  abbrev pub new_session : String → String → String → String → AuthSession
  new_session session_id user_id ip_address user_agent = record {
    id = session_id;
    user_id = user_id;
    created_at = now;
    last_activity = now;
    ip_address = ip_address;
    user_agent = user_agent;
    is_active = true;
    expires_at = now + config.session_timeout;
  }

  -- `none` is the error that the user has too many active sessions.
  unfoldable pub create_session :
      String → String → String → String → Sessions → Sessions × Option AuthSession
  create_session session_id user_id ip_address user_agent m =
      if leb config.max_active_sessions (count_active user_id now m) then (m, none) else (
        put session_id (new_session session_id user_id ip_address user_agent) m,
        some (new_session session_id user_id ip_address user_agent),
      )

  unfoldable pub update_session_activity : String → Sessions → Sessions
  update_session_activity session_id m = elim (get session_id m) [
    | none ↦ m
    | some s ↦
        put session_id (record s { last_activity = now; expires_at = now + config.session_timeout })
          m
  ]

abbrev pub unless_expired : Time → AuthSession → Option AuthSession
unless_expired now s = if ltb s.expires_at now then none else some s

unfoldable pub get_session : Time → String → Sessions → Option AuthSession
get_session now session_id m = elim (get session_id m) [
  | none ↦ none
  | some s ↦ unless_expired now s
]

abbrev pub ended : Time → AuthSession → AuthSession
ended now s = record s { is_active = false; expires_at = now }

unfoldable pub invalidate_session : Time → String → Sessions → Sessions
invalidate_session now session_id m = elim (get session_id m) [
  | none ↦ m
  | some s ↦ put session_id (ended now s) m
]

unfoldable pub invalidate_user_sessions : Time → String → Sessions → Sessions
invalidate_user_sessions now user_id m =
    map_values (λ s. if s.user_id == user_id then ended now s else s) m

unfoldable pub perform_session_cleanup : Time → Sessions → Sessions
perform_session_cleanup now m = delete_if (λ s. ltb s.expires_at now) m

-- `authenticateSession` for a session's cookie: a session that is found is used, which prolongs it. `looked` and
-- `used` are the moments of the two calls, each under a lock of its own, and `between` is what other calls
-- do to the sessions between them.
unfoldable pub authenticate_session :
    AuthMiddlewareConfig
    → Time
    → Time
    → (Sessions → Sessions)
    → String
    → Sessions
    → Sessions × Option AuthSession
authenticate_session config looked used between session_id m =
    elim (get_session looked session_id m) [
      | none ↦ (m, none)
      | some s ↦ (update_session_activity config used session_id (between m), some s)
    ]
