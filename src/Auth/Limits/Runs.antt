-- ===== src/Auth/Limits/Runs.antt =====
-- The cleanup of the rate limiter of internal/application/auth_middleware.go forgets entries, and no
-- request is decided otherwise for it.
use Prim.Native.String.{String}
use hotel_reviews_microservi.Base.{
  ◌+◌, ◌*◌, ◌≤◌, ◌<◌, ◌≡◌, refl, sym, ◌∙◌, inl, inr, true, Option-cases, Bool-cases, List, [], ◌∷◌,
  arith, Time, IsOrdered, map,
}
use hotel_reviews_microservi.Base.Maps.{
  get, AllValues, get-AllValues, put-AllValues, IsDistinct, put-IsDistinct, get-delete_if,
  get-delete_if-none, delete_if-IsDistinct, delete_if-AllValues,
}
use hotel_reviews_microservi.Auth.Config.{AuthMiddlewareConfig}
use hotel_reviews_microservi.Auth.Limits.{
  RateLimit, RateLimiter, new_rate_limiter, new_limit, check_limit, or_new_limit, check_key,
  check_user_rate_limit, check_ip_rate_limit, perform_cleanup, is_old,
}
use hotel_reviews_microservi.Auth.Limits.Window.{
  user_decisions, entry_decisions, user_decisions-entry, user_decisions-new,
}
use hotel_reviews_microservi.Auth.Limits.Cleanup.{
  entry_decisions-Alike, IsSound, check_limit-IsSound, dropped-Alike,
}

-- The calls that change the limiter.
pub data Call : Type 0 where
  user ip : String → Call
  cleanup : Call

unfoldable pub run : AuthMiddlewareConfig → List (Time × Call) → RateLimiter → RateLimiter
run config [] rl = rl
run config ((now, user id) ∷ calls) rl = run config calls (check_user_rate_limit config now id rl).0
run config ((now, ip address) ∷ calls) rl =
    run config calls (check_ip_rate_limit config now address rl).0
run config ((now, cleanup) ∷ calls) rl = run config calls (perform_cleanup config now rl)

module _ (config : AuthMiddlewareConfig)
    (allows : 0 < config.rate_limit_requests + config.rate_limit_burst) where
  -- What is true of the entries of users.
  record IsKept (clock : Time) (m : List (String × RateLimit)) : Type 0 where
    distinct : IsDistinct m
    sound : AllValues (IsSound config clock) m

  later-IsSound :
      (clock now : Time) (m : List (String × RateLimit))
      → clock ≤ now
      → AllValues (IsSound config clock) m
      → AllValues (IsSound config now) m
  later-IsSound clock now [] c a = a
  later-IsSound clock now (e ∷ m) c a = (ground arith, later-IsSound clock now m c a.1)

  or_new_limit-IsSound :
      (clock now : Time) (id : String) (m : List (String × RateLimit))
      → clock ≤ now
      → AllValues (IsSound config clock) m
      → IsSound config now (or_new_limit now (get id m))
  or_new_limit-IsSound clock now id m c a = elim (Option-cases (get id m)) [
    | inl e ↦ rw e (record { window = omega arith; past = omega arith; short = omega arith })
    | inr (l, e) ↦ rw e (get-AllValues (IsSound config now) id m (later-IsSound clock now m c a) e)
  ]

  check_key-IsKept :
      (clock now : Time) (id : String) (m : List (String × RateLimit))
      → clock ≤ now
      → IsKept clock m
      → IsKept now (check_key config now id m).0
  unfolding check_key
  check_key-IsKept clock now id m c k =
      let l = or_new_limit now (get id m) in
      let l' = (check_limit config now l).0 in
      let new =
        check_limit-IsSound config now now l allows (omega arith)
          (or_new_limit-IsSound clock now id m c k.sound) in
      record {
        distinct = put-IsDistinct id l' m k.distinct;
        sound =
            put-AllValues (IsSound config now) id l' m new (later-IsSound clock now m c k.sound);
      }

  later-IsKept :
      (clock now : Time) (m : List (String × RateLimit))
      → clock ≤ now
      → IsKept clock m
      → IsKept now m
  later-IsKept clock now m c k = record {
    distinct = k.distinct;
    sound = later-IsSound clock now m c k.sound;
  }

  check_user-IsKept :
      (clock now : Time) (id : String) (rl : RateLimiter)
      → clock ≤ now
      → IsKept clock rl.user_limits
      → IsKept now (check_user_rate_limit config now id rl).0.user_limits
  unfolding check_user_rate_limit
  check_user-IsKept clock now id rl c k = elim (Bool-cases config.rate_limit_enabled) [
    | inl on ↦ simp on (check_key-IsKept clock now id rl.user_limits c k)
    | inr off ↦ simp off (later-IsKept clock now rl.user_limits c k)
  ]

  check_ip-IsKept :
      (clock now : Time) (address : String) (rl : RateLimiter)
      → clock ≤ now
      → IsKept clock rl.user_limits
      → IsKept now (check_ip_rate_limit config now address rl).0.user_limits
  unfolding check_ip_rate_limit
  check_ip-IsKept clock now address rl c k = elim (Bool-cases config.rate_limit_enabled) [
    | inl on ↦ simp on (later-IsKept clock now rl.user_limits c k)
    | inr off ↦ simp off (later-IsKept clock now rl.user_limits c k)
  ]

  run-IsKept :
      (calls : List (Time × Call)) (clock : Time) (rl : RateLimiter)
      → IsOrdered clock (map (λ (c : Time × Call). c.0) calls)
      → IsKept clock rl.user_limits
      → (end : Time) × IsKept end (run config calls rl).user_limits
  unfolding run perform_cleanup
  run-IsKept [] clock rl o k = (clock, k)
  run-IsKept ((now, user id) ∷ calls) clock rl o k =
      run-IsKept calls now (check_user_rate_limit config now id rl).0 o.1
        (check_user-IsKept clock now id rl o.0 k)
  run-IsKept ((now, ip address) ∷ calls) clock rl o k =
      run-IsKept calls now (check_ip_rate_limit config now address rl).0 o.1
        (check_ip-IsKept clock now address rl o.0 k)
  run-IsKept ((now, cleanup) ∷ calls) clock rl o k = run-IsKept calls now _ o.1 (record {
    distinct = delete_if-IsDistinct (is_old config now) rl.user_limits k.distinct;
    sound =
        delete_if-AllValues (is_old config now) (IsSound config now) rl.user_limits
          (later-IsSound clock now rl.user_limits o.0 k.sound);
  })

  dropped-decisions :
      (clock now t : Time) (ts : List Time) (l : RateLimit)
      → IsSound config clock l
      → l.last_request + 2 * config.rate_limit_window < now
      → now ≤ t
      → entry_decisions config l (t ∷ ts) ≡ entry_decisions config (new_limit t) (t ∷ ts)
  unfolding entry_decisions
  dropped-decisions clock now t ts l s d h =
      let (e, a) = dropped-Alike config now t clock l s d h in
      ground (
        arith,
        entry_decisions-Alike config (check_limit config t l).0
            (check_limit config t (new_limit t)).0 ts a,
      )

  -- A later request of a user is decided alike before and after the entries are cleaned up.
  cleanup-user_decisions :
      (clock now : Time) (id : String) (rl : RateLimiter) (ts : List Time)
      → config.rate_limit_enabled ≡ true
      → IsKept clock rl.user_limits
      → IsOrdered now ts
      → user_decisions config id (perform_cleanup config now rl) ts ≡ user_decisions config id rl ts
  unfolding perform_cleanup
  cleanup-user_decisions clock now id rl [] on k o = unfold user_decisions in refl
  cleanup-user_decisions clock now id rl (t ∷ ts) on k o =
      let rl' = perform_cleanup config now rl in
      elim (Option-cases (get id rl.user_limits)) [
        | inl g ↦
            user_decisions-new config id rl' t ts on
              (get-delete_if-none (is_old config now) id rl.user_limits g)
            ∙ sym (user_decisions-new config id rl t ts on g)
        | inr (l, g) ↦ elim (get-delete_if (is_old config now) id rl.user_limits l k.distinct g) [
          | inl (g', p) ↦
              user_decisions-entry config id rl' l (t ∷ ts) on g'
              ∙ sym (user_decisions-entry config id rl l (t ∷ ts) on g)
          | inr (g', p) ↦
              user_decisions-new config id rl' t ts on g'
              ∙ sym (
                  dropped-decisions clock now t ts l
                    (get-AllValues (IsSound config clock) id rl.user_limits k.sound g)
                    (ground arith) o.0)
              ∙ sym (user_decisions-entry config id rl l (t ∷ ts) on g)
        ]
      ]

-- After any requests of users and addresses and any cleanups, in the order of their times, on a new
-- limiter that is enabled and lets some request through, a cleanup makes no difference to the
-- decisions on the requests of any user from then on.
pub user_decisions-perform_cleanup :
    (config : AuthMiddlewareConfig) (calls : List (Time × Call)) (now : Time) (id : String)
    (ts : List Time)
    → 0 < config.rate_limit_requests + config.rate_limit_burst
    → config.rate_limit_enabled ≡ true
    → IsOrdered 0 (map (λ (c : Time × Call). c.0) calls)
    → IsOrdered now ts
    → let rl = run config calls new_rate_limiter in
      user_decisions config id (perform_cleanup config now rl) ts ≡ user_decisions config id rl ts
user_decisions-perform_cleanup config calls now id ts allows on o o' =
    let (clock, k) =
      run-IsKept config allows calls 0 new_rate_limiter o (record { distinct = tt; sound = tt }) in
    cleanup-user_decisions config allows clock now id (run config calls new_rate_limiter) ts on k o'
