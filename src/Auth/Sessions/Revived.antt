-- ===== src/Auth/Sessions/Revived.antt =====
-- What the operations on a session of internal/application/auth_middleware.go do to one another.
use Prim.Native.String.{String}
use hotel_reviews_microservi.Base.{◌+◌, ◌≤◌, ◌<◌, ◌≡◌, false, none, some, arith, Time}
use hotel_reviews_microservi.Base.Maps.{get, put, get-put_self}
use hotel_reviews_microservi.Auth.Config.{AuthMiddlewareConfig}
use hotel_reviews_microservi.Auth.Sessions.{
  AuthSession, Sessions, update_session_activity, get_session, ended, invalidate_session,
}

module _ (config : AuthMiddlewareConfig) (t now later : Time) (id : String) (s : AuthSession)
    (m : Sessions) (found : get id m ≡ some s) where
  -- A session that has been invalidated is not found any more, at any time after that.
  get_session-invalidate_session :
      t < later → get_session later id (invalidate_session t id m) ≡ none
  unfolding get_session invalidate_session
  get_session-invalidate_session h = ground (arith, get-put_self id (ended t s) m)

  -- A session that has been invalidated is found again, inactive, until the session timeout has passed,
  -- where its activity is updated after the invalidation, as a request does that has found the session
  -- before it.
  pub update_session_activity-revives :
      later ≤ now + config.session_timeout
      → get_session later id (update_session_activity config now id (invalidate_session t id m))
        ≡ some (record s {
          is_active = false;
          last_activity = now;
          expires_at = now + config.session_timeout;
        })
  unfolding get_session invalidate_session update_session_activity
  update_session_activity-revives h =
      let s' : AuthSession = record s {
        is_active = false;
        last_activity = now;
        expires_at = now + config.session_timeout;
      } in
      ground (arith, get-put_self id (ended t s) m, get-put_self id s' (put id (ended t s) m))
