-- ===== src/Auth/Examples.antt =====
-- The theorems on the rate limiter, the blacklists and the sessions of
-- internal/application/auth_middleware.go at concrete inputs.
use hotel_reviews_microservi.Base.{
  ◌*◌, ◌≤◌, ◌≡◌, refl, true, false, ◌&&◌, not, none, List, [], ◌∷◌, arith, Time, second,
}
use hotel_reviews_microservi.Auth.Config.{AuthMiddlewareConfig, default_auth_middleware_config}
use hotel_reviews_microservi.Auth.Limits.{new_rate_limiter, perform_cleanup}
use hotel_reviews_microservi.Auth.Limits.Window.{user_decisions}
use hotel_reviews_microservi.Auth.Limits.Runs.{
  Call, user, ip, cleanup, run, user_decisions-perform_cleanup,
}
use hotel_reviews_microservi.Auth.Blacklist.{
  new_blacklist_manager, is_ip_blacklisted, is_user_blacklisted, expires_after,
}
use hotel_reviews_microservi.Auth.Blacklist.Log
use hotel_reviews_microservi.Auth.Sessions.{
  create_session, update_session_activity, AuthSession, count_active, new_session,
}
use hotel_reviews_microservi.Base.Maps.{get, put, delete}
use hotel_reviews_microservi.Auth.Sessions.Bound

abbrev two_and_one : AuthMiddlewareConfig
two_and_one = record default_auth_middleware_config {
  rate_limit_requests = 2;
  rate_limit_burst = 1;
  max_active_sessions = 1;
}

abbrev moments : List Time
moments = 200 ∷ 300 ∷ 300 ∷ 400 ∷ []

abbrev requests : List (Time × Call)
requests =
    (100, user "alice") ∷ (150, ip "10.0.0.1") ∷ (200, user "bob") ∷ (90 * second, cleanup) ∷ []

user_decisions-perform_cleanup_example :
    user_decisions two_and_one "alice"
      (perform_cleanup two_and_one (200 * second) (run two_and_one requests new_rate_limiter))
      ((200 * second) ∷ (201 * second) ∷ [])
    ≡ user_decisions two_and_one "alice"
        (run two_and_one requests new_rate_limiter)
        ((200 * second) ∷ (201 * second) ∷ [])
user_decisions-perform_cleanup_example =
    user_decisions-perform_cleanup two_and_one requests (200 * second) "alice"
      ((200 * second) ∷ (201 * second) ∷ []) (omega arith) refl
      (omega arith, (omega arith, (omega arith, (omega arith, tt))))
      (omega arith, (omega arith, tt))

abbrev bans : List (Time × Log.Call)
bans =
    (100, Log.ban_ip "10.0.0.1" 500)
    ∷ (200, Log.ban_user "bob" 50)
    ∷ (300, Log.cleanup)
    ∷ (310, Log.clear_ip "10.0.0.2")
    ∷ []

run-is_blacklisted_example :
    let bm = Log.run bans (new_blacklist_manager two_and_one) in
    (is_ip_blacklisted two_and_one 400 "10.0.0.1" bm ≡ (
      true
      && not (false && Log.is_member "10.0.0.1" [])
      && expires_after 400 (Log.ip_end "10.0.0.1" none bans)))
    × (is_user_blacklisted two_and_one 400 "bob" bm
        ≡ (true && expires_after 400 (Log.user_end "bob" none bans)))
run-is_blacklisted_example =
    Log.run-is_blacklisted two_and_one bans 400 "10.0.0.1" "bob"
      (omega arith, (omega arith, (omega arith, (omega arith, tt))))

abbrev day : List (Time × Bound.Call)
day =
    (100, Bound.create "s1" "alice" "10.0.0.1" "browser")
    ∷ (200, Bound.create "s2" "alice" "10.0.0.1" "browser")
    ∷ (250, Bound.update "s1")
    ∷ (300, Bound.invalidate "s1")
    ∷ []

in_time : Bound.ArePrompt two_and_one day []
unfolding Bound.step create_session count_active get put delete update_session_activity
in_time = (tt, (tt, (λ s found live. ground (arith, found), (tt, tt))))

run-bounded_example : count_active "alice" 400 (Bound.run two_and_one day []) ≤ 1
run-bounded_example =
    Bound.run-bounded two_and_one "alice" day 400
      (omega arith, (omega arith, (omega arith, (omega arith, tt))))
      (omega arith, (omega arith, (omega arith, (omega arith, tt)))) in_time

abbrev session : AuthSession
session = new_session two_and_one 100 "s1" "alice" "10.0.0.1" "browser"
