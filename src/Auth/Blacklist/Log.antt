-- ===== src/Auth/Blacklist/Log.antt =====
-- The blacklists of internal/application/auth_middleware.go answer what the log of their calls says.
use Prim.Native.String.{String}
use text.Mathlib.Text.{◌==◌}
use hotel_reviews_microservi.Base.{
  ◌+◌, ◌≤◌, ◌≡◌, refl, inl, inr, Bool, true, false, ◌&&◌, ◌||◌, not, Option, Option-cases, none,
  some, List, [], ◌∷◌, if◌then◌else◌, ltb, Time, Duration, All, arith,
}
use hotel_reviews_microservi.Base.Maps.{
  get, put, delete, delete_if, IsDistinct, put-IsDistinct, delete-IsDistinct, delete_if-IsDistinct,
  get-put, get-delete, get-delete_if, get-delete_if-none,
}
use hotel_reviews_microservi.Auth.Config.{AuthMiddlewareConfig}
use hotel_reviews_microservi.Auth.Blacklist.{
  BlacklistManager, whitelist, new_blacklist_manager, or_false, expires_after, is_ip_blacklisted,
  is_user_blacklisted, blacklist_ip, blacklist_user, remove_ip_from_blacklist,
  remove_user_from_blacklist, perform_blacklist_cleanup,
}

pub data Call : Type 0 where
  ban_ip ban_user : String → Duration → Call
  clear_ip clear_user : String → Call
  cleanup : Call

unfoldable pub run : List (Time × Call) → BlacklistManager → BlacklistManager
run [] bm = bm
run ((now, ban_ip ip d) ∷ calls) bm = run calls (blacklist_ip now ip d bm)
run ((now, ban_user id d) ∷ calls) bm = run calls (blacklist_user now id d bm)
run ((now, clear_ip ip) ∷ calls) bm = run calls (remove_ip_from_blacklist ip bm)
run ((now, clear_user id) ∷ calls) bm = run calls (remove_user_from_blacklist id bm)
run ((now, cleanup) ∷ calls) bm = run calls (perform_blacklist_cleanup now bm)

-- The specification: the end that the last call for the key has set, if it has set one.
unfoldable pub ip_end : String → Option Time → List (Time × Call) → Option Time
ip_end ip acc [] = acc
ip_end ip acc ((now, ban_ip other d) ∷ calls) =
    ip_end ip (if other == ip then some (now + d) else acc) calls
ip_end ip acc ((now, clear_ip other) ∷ calls) = ip_end ip (if other == ip then none else acc) calls
ip_end ip acc ((now, _) ∷ calls) = ip_end ip acc calls

unfoldable pub user_end : String → Option Time → List (Time × Call) → Option Time
user_end id acc [] = acc
user_end id acc ((now, ban_user other d) ∷ calls) =
    user_end id (if other == id then some (now + d) else acc) calls
user_end id acc ((now, clear_user other) ∷ calls) =
    user_end id (if other == id then none else acc) calls
user_end id acc ((now, _) ∷ calls) = user_end id acc calls

-- A map answers at the given time, and so later, as one entry does.
record Answers (later : Time) (key : String) (m : List (String × Time)) (acc : Option Time)
    : Type 0 where
  distinct : IsDistinct m
  same : expires_after later (get key m) ≡ expires_after later acc

module _ (later : Time) (key : String) (m : List (String × Time)) (acc : Option Time)
    (a : Answers later key m acc) where
  put-Answers :
      (other : String) (t : Time)
      → Answers later key (put other t m) (if other == key then some t else acc)
  put-Answers other t = record {
    distinct = put-IsDistinct other t m a.distinct;
    same = rw (get-put other key t m) (ground (arith, a.same));
  }

  delete-Answers :
      (other : String) → Answers later key (delete other m) (if other == key then none else acc)
  delete-Answers other = record {
    distinct = delete-IsDistinct other m a.distinct;
    same = rw (get-delete other key m) (ground (arith, a.same));
  }

  cleanup-Answers :
      (now : Time) → now ≤ later → Answers later key (delete_if (λ t. ltb t now) m) acc
  cleanup-Answers now h = record {
    distinct = delete_if-IsDistinct (λ t. ltb t now) m a.distinct;
    same = elim (Option-cases (get key m)) [
      | inl e ↦ ground (arith, a.same, get-delete_if-none (λ t. ltb t now) key m)
      | inr (t, e) ↦ ground (arith, a.same, get-delete_if (λ t. ltb t now) key m t a.distinct)
    ];
  }

-- Nothing is listed at first.
new-Answers : (later : Time) (key : String) → Answers later key [] none
unfolding get
new-Answers later key = record { distinct = tt; same = refl }

module _ (later : Time) (key : String) where
  run-ips :
      (calls : List (Time × Call)) (bm : BlacklistManager) (acc : Option Time)
      → All (λ (c : Time × Call). c.0 ≤ later) calls
      → Answers later key bm.blacklisted_ips acc
      → expires_after later (get key (run calls bm).blacklisted_ips)
        ≡ expires_after later (ip_end key acc calls)
  unfolding run ip_end blacklist_ip blacklist_user remove_ip_from_blacklist
      remove_user_from_blacklist perform_blacklist_cleanup
  run-ips [] bm acc h a = a.same
  run-ips ((now, ban_ip ip d) ∷ calls) bm acc h a =
      run-ips calls (blacklist_ip now ip d bm) _ h.1
        (put-Answers later key bm.blacklisted_ips acc a ip (now + d))
  run-ips ((now, ban_user id d) ∷ calls) bm acc h a =
      run-ips calls (blacklist_user now id d bm) acc h.1 a
  run-ips ((now, clear_ip ip) ∷ calls) bm acc h a =
      run-ips calls (remove_ip_from_blacklist ip bm) _ h.1
        (delete-Answers later key bm.blacklisted_ips acc a ip)
  run-ips ((now, clear_user id) ∷ calls) bm acc h a =
      run-ips calls (remove_user_from_blacklist id bm) acc h.1 a
  run-ips ((now, cleanup) ∷ calls) bm acc h a =
      run-ips calls (perform_blacklist_cleanup now bm) acc h.1
        (cleanup-Answers later key bm.blacklisted_ips acc a now h.0)

  run-users :
      (calls : List (Time × Call)) (bm : BlacklistManager) (acc : Option Time)
      → All (λ (c : Time × Call). c.0 ≤ later) calls
      → Answers later key bm.blacklisted_users acc
      → expires_after later (get key (run calls bm).blacklisted_users)
        ≡ expires_after later (user_end key acc calls)
  unfolding run user_end blacklist_ip blacklist_user remove_ip_from_blacklist
      remove_user_from_blacklist perform_blacklist_cleanup
  run-users [] bm acc h a = a.same
  run-users ((now, ban_ip ip d) ∷ calls) bm acc h a =
      run-users calls (blacklist_ip now ip d bm) acc h.1 a
  run-users ((now, ban_user id d) ∷ calls) bm acc h a =
      run-users calls (blacklist_user now id d bm) _ h.1
        (put-Answers later key bm.blacklisted_users acc a id (now + d))
  run-users ((now, clear_ip ip) ∷ calls) bm acc h a =
      run-users calls (remove_ip_from_blacklist ip bm) acc h.1 a
  run-users ((now, clear_user id) ∷ calls) bm acc h a =
      run-users calls (remove_user_from_blacklist id bm) _ h.1
        (delete-Answers later key bm.blacklisted_users acc a id)
  run-users ((now, cleanup) ∷ calls) bm acc h a =
      run-users calls (perform_blacklist_cleanup now bm) acc h.1
        (cleanup-Answers later key bm.blacklisted_users acc a now h.0)

-- Whether the text is in the list.
abbrev pub is_member : String → List String → Bool
is_member ip [] = false
is_member ip (x ∷ xs) = x == ip || is_member ip xs

whitelist-is_member :
    (ip : String) (ips : List String) (m : List (String × Bool))
    → or_false (get ip (whitelist ips m)) ≡ (is_member ip ips || or_false (get ip m))
unfolding whitelist
whitelist-is_member ip [] m = refl
whitelist-is_member ip (x ∷ xs) m =
    ground (arith, whitelist-is_member ip xs (put x true m), get-put x ip true m)

run-whitelist :
    (calls : List (Time × Call)) (bm : BlacklistManager)
    → (run calls bm).whitelisted_ips ≡ bm.whitelisted_ips
unfolding run blacklist_ip blacklist_user remove_ip_from_blacklist remove_user_from_blacklist
    perform_blacklist_cleanup
run-whitelist [] bm = refl
run-whitelist ((now, ban_ip ip d) ∷ calls) bm = run-whitelist calls (blacklist_ip now ip d bm)
run-whitelist ((now, ban_user id d) ∷ calls) bm = run-whitelist calls (blacklist_user now id d bm)
run-whitelist ((now, clear_ip ip) ∷ calls) bm = run-whitelist calls (remove_ip_from_blacklist ip bm)
run-whitelist ((now, clear_user id) ∷ calls) bm =
    run-whitelist calls (remove_user_from_blacklist id bm)
run-whitelist ((now, cleanup) ∷ calls) bm = run-whitelist calls (perform_blacklist_cleanup now bm)

-- After any calls on new blacklists, all of them at or before `later`, an address counts as listed at
-- `later` exactly when the lists are enabled, the address is not on an enabled whitelist, and the end
-- that the last call for it has set is after `later`; and a user when the lists are enabled and the
-- end that the last call for the user has set is after `later`. The cleanups make no difference.
pub run-is_blacklisted :
    (config : AuthMiddlewareConfig) (calls : List (Time × Call)) (later : Time)
    (ip user_id : String)
    → All (λ (c : Time × Call). c.0 ≤ later) calls
    → let bm = run calls (new_blacklist_manager config) in
      (is_ip_blacklisted config later ip bm ≡ (
        config.blacklist_enabled
        && not (config.whitelist_enabled && is_member ip config.whitelist_ips)
        && expires_after later (ip_end ip none calls)))
      × (is_user_blacklisted config later user_id bm
          ≡ (config.blacklist_enabled && expires_after later (user_end user_id none calls)))
unfolding is_ip_blacklisted is_user_blacklisted new_blacklist_manager get
run-is_blacklisted config calls later ip user_id h =
    let bm = new_blacklist_manager config in
    ground (
      arith,
      run-ips later ip calls bm none h (new-Answers later ip),
      run-users later user_id calls bm none h (new-Answers later user_id),
      run-whitelist calls bm,
      whitelist-is_member ip config.whitelist_ips [],
    )
