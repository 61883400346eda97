-- ===== src/Auth/Blacklist.antt =====
-- `BlacklistManager` of internal/application/auth_middleware.go. A user is given by the text of the
-- UUID.
pub mod Log
use Prim.Native.String.{String}
use hotel_reviews_microservi.Base.{
  ◌+◌, Bool, true, false, ◌&&◌, not, Option, none, some, List, [], ◌∷◌, if◌then◌else◌, ltb, Time,
  Duration,
}
use hotel_reviews_microservi.Base.Maps.{get, put, delete, delete_if}
use hotel_reviews_microservi.Auth.Config.{AuthMiddlewareConfig}

-- The times at which the entries of the blacklists expire.
pub record BlacklistManager : Type 0 where
  pub blacklisted_ips : List (String × Time)
  pub blacklisted_users : List (String × Time)
  pub whitelisted_ips : List (String × Bool)

unfoldable pub whitelist : List String → List (String × Bool) → List (String × Bool)
whitelist [] m = m
whitelist (ip ∷ ips) m = whitelist ips (put ip true m)

unfoldable pub new_blacklist_manager : AuthMiddlewareConfig → BlacklistManager
new_blacklist_manager config = record {
  blacklisted_ips = [];
  blacklisted_users = [];
  whitelisted_ips = whitelist config.whitelist_ips [];
}

-- `m[ip]` of a map to Booleans is false for a missing key.
abbrev pub or_false : Option Bool → Bool
or_false none = false
or_false (some b) = b

-- `exists && time.Now().Before(expiresAt)`.
abbrev pub expires_after : Time → Option Time → Bool
expires_after now none = false
expires_after now (some t) = ltb now t

unfoldable pub is_ip_blacklisted : AuthMiddlewareConfig → Time → String → BlacklistManager → Bool
is_ip_blacklisted config now ip bm =
    if not config.blacklist_enabled
    then false
    else if config.whitelist_enabled && or_false (get ip bm.whitelisted_ips)
    then false
    else expires_after now (get ip bm.blacklisted_ips)

unfoldable pub is_user_blacklisted : AuthMiddlewareConfig → Time → String → BlacklistManager → Bool
is_user_blacklisted config now user_id bm =
    if not config.blacklist_enabled
    then false
    else expires_after now (get user_id bm.blacklisted_users)

unfoldable pub blacklist_ip : Time → String → Duration → BlacklistManager → BlacklistManager
blacklist_ip now ip duration bm = record bm {
  blacklisted_ips = put ip (now + duration) bm.blacklisted_ips;
}

unfoldable pub blacklist_user : Time → String → Duration → BlacklistManager → BlacklistManager
blacklist_user now user_id duration bm = record bm {
  blacklisted_users = put user_id (now + duration) bm.blacklisted_users;
}

unfoldable pub remove_ip_from_blacklist : String → BlacklistManager → BlacklistManager
remove_ip_from_blacklist ip bm = record bm { blacklisted_ips = delete ip bm.blacklisted_ips }

unfoldable pub remove_user_from_blacklist : String → BlacklistManager → BlacklistManager
remove_user_from_blacklist user_id bm = record bm {
  blacklisted_users = delete user_id bm.blacklisted_users;
}

unfoldable pub perform_blacklist_cleanup : Time → BlacklistManager → BlacklistManager
perform_blacklist_cleanup now bm = record bm {
  blacklisted_ips = delete_if (λ expires_at. ltb expires_at now) bm.blacklisted_ips;
  blacklisted_users = delete_if (λ expires_at. ltb expires_at now) bm.blacklisted_users;
}
