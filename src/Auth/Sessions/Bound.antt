-- ===== src/Auth/Sessions/Bound.antt =====
-- No user has more active sessions than the configuration allows.
use Prim.Native.String.{String}
use text.Mathlib.TextEquality.{eq_iff}
use hotel_reviews_microservi.Base.{
  ℕ, ◌+◌, ◌≤◌, ◌<◌, ◌≡◌, inl, inr, Bool, true, false, Option-cases, some, List, [], ◌∷◌, ltb, Time,
  arith, IsOrdered, map, All,
}
use hotel_reviews_microservi.Base.Maps.{get, put, delete, delete_if, map_values}
use hotel_reviews_microservi.Auth.Config.{AuthMiddlewareConfig}
use hotel_reviews_microservi.Auth.Sessions.{
  AuthSession, Sessions, is_counted, count_active, new_session, create_session,
  update_session_activity, ended, invalidate_session, invalidate_user_sessions,
  perform_session_cleanup,
}

abbrev one_if : Bool → ℕ
one_if true = 1
one_if false = 0

-- The session, if there is an active one, expires later.
abbrev pub IsInTime : Time → String → Sessions → Type 0
IsInTime now session_id m =
    (s : AuthSession) → get session_id m ≡ some s → s.is_active ≡ true → now < s.expires_at

module _ (user_id : String) where
  count-later :
      (now later : Time) (m : Sessions)
      → now ≤ later
      → count_active user_id later m ≤ count_active user_id now m
  unfolding count_active
  count-later now later [] h = omega arith
  count-later now later (e ∷ m) h = ground (arith, count-later now later m h)

  module _ (now : Time) where
    count-delete :
        (key : String) (m : Sessions)
        → count_active user_id now (delete key m) ≤ count_active user_id now m
    unfolding count_active delete
    count-delete key [] = omega arith
    count-delete key (e ∷ m) = ground (arith, count-delete key m)

    -- A session that is found is counted apart from the others.
    count-get :
        (key : String) (m : Sessions) (s : AuthSession)
        → get key m ≡ some s
        → one_if (is_counted user_id now s) + count_active user_id now (delete key m)
          ≤ count_active user_id now m
    unfolding count_active delete get
    count-get key [] s h = cc
    count-get key (e ∷ m) s h = ground (arith, count-get key m s, count-delete key m)

    count-put :
        (key : String) (s : AuthSession) (m : Sessions)
        → count_active user_id now (put key s m)
          ≡ one_if (is_counted user_id now s) + count_active user_id now (delete key m)
    unfolding count_active put
    count-put key s m = ground arith

    count-delete_if :
        (test : AuthSession → Bool) (m : Sessions)
        → count_active user_id now (delete_if test m) ≤ count_active user_id now m
    unfolding count_active delete_if
    count-delete_if test [] = omega arith
    count-delete_if test (e ∷ m) = ground (arith, count-delete_if test m)

    count-end :
        (other : String) (m : Sessions)
        → count_active user_id now (invalidate_user_sessions now other m)
          ≤ count_active user_id now m
    unfolding count_active invalidate_user_sessions map_values
    count-end other [] = omega arith
    count-end other (e ∷ m) = ground (arith, count-end other m)

    count-create :
        (config : AuthMiddlewareConfig) (session_id other ip agent : String) (m : Sessions)
        → count_active user_id now m ≤ config.max_active_sessions
        → count_active user_id now (create_session config now session_id other ip agent m).0
          ≤ config.max_active_sessions
    unfolding create_session
    count-create config session_id other ip agent m h = ground (
      arith,
      eq_iff other user_id,
      count-put session_id (new_session config now session_id other ip agent) m,
      count-delete session_id m,
    )

    count-invalidate :
        (session_id : String) (m : Sessions)
        → count_active user_id now (invalidate_session now session_id m)
          ≤ count_active user_id now m
    unfolding invalidate_session
    count-invalidate session_id m = elim (Option-cases (get session_id m)) [
      | inl e ↦ ground arith
      | inr (s, e) ↦ ground (arith, count-put session_id (ended now s) m, count-delete session_id m)
    ]

    count-update :
        (config : AuthMiddlewareConfig) (session_id : String) (m : Sessions)
        → IsInTime now session_id m
        → count_active user_id now (update_session_activity config now session_id m)
          ≤ count_active user_id now m
    unfolding update_session_activity
    count-update config session_id m in_time = elim (Option-cases (get session_id m)) [
      | inl e ↦ ground arith
      | inr (s, e) ↦ ground (
        arith,
        in_time s e,
        count-get session_id m s e,
        count-put session_id
            (record s { last_activity = now; expires_at = now + config.session_timeout }) m,
      )
    ]

-- The calls that change the sessions. `authenticateSession` looks a session up, which changes nothing, and then
-- makes the call `update`, with any calls of others between.
pub data Call : Type 0 where
  create : String → String → String → String → Call
  update invalidate invalidate_user : String → Call
  cleanup : Call

unfoldable pub step : AuthMiddlewareConfig → Time → Call → Sessions → Sessions
step config now (create id user ip agent) m = (create_session config now id user ip agent m).0
step config now (update id) m = update_session_activity config now id m
step config now (invalidate id) m = invalidate_session now id m
step config now (invalidate_user user) m = invalidate_user_sessions now user m
step config now cleanup m = perform_session_cleanup now m

unfoldable pub run : AuthMiddlewareConfig → List (Time × Call) → Sessions → Sessions
run config [] m = m
run config ((now, c) ∷ calls) m = run config calls (step config now c m)

-- Every update of an active session's activity comes before the session expires.
abbrev pub IsPrompt : Time → Call → Sessions → Type 0
IsPrompt now (update id) m = IsInTime now id m
IsPrompt now _ m = Unit {0}

abbrev pub ArePrompt : AuthMiddlewareConfig → List (Time × Call) → Sessions → Type 0
ArePrompt config [] m = Unit {0}
ArePrompt config ((now, c) ∷ calls) m =
    IsPrompt now c m × ArePrompt config calls (step config now c m)

step-bounded :
    (config : AuthMiddlewareConfig) (user_id : String) (now : Time) (c : Call) (m : Sessions)
    → IsPrompt now c m
    → count_active user_id now m ≤ config.max_active_sessions
    → count_active user_id now (step config now c m) ≤ config.max_active_sessions
unfolding step perform_session_cleanup
step-bounded config user_id now (create id user ip agent) m v h =
    count-create user_id now config id user ip agent m h
step-bounded config user_id now (update id) m v h =
    omega (arith, count-update user_id now config id m v)
step-bounded config user_id now (invalidate id) m v h =
    omega (arith, count-invalidate user_id now id m)
step-bounded config user_id now (invalidate_user user) m v h =
    omega (arith, count-end user_id now user m)
step-bounded config user_id now cleanup m v h =
    omega (arith, count-delete_if user_id now (λ s. ltb s.expires_at now) m)

run-bounded_from :
    (config : AuthMiddlewareConfig) (user_id : String) (calls : List (Time × Call)) (clock : Time)
    (m : Sessions) (later : Time)
    → IsOrdered clock (map (λ (c : Time × Call). c.0) calls)
    → All (λ (c : Time × Call). c.0 ≤ later) calls
    → clock ≤ later
    → ArePrompt config calls m
    → count_active user_id clock m ≤ config.max_active_sessions
    → count_active user_id later (run config calls m) ≤ config.max_active_sessions
unfolding run
run-bounded_from config user_id [] clock m later o a l u h =
    omega (arith, count-later user_id clock later m l)
run-bounded_from config user_id ((now, c) ∷ calls) clock m later o a l u h =
    run-bounded_from config user_id calls now (step config now c m) later o.1 a.1 a.0 u.1
      (step-bounded config user_id now c m u.0 (omega (arith, count-later user_id clock now m o.0)))

-- After any creations, updates, invalidations and cleanups of sessions, in the order of their times, of which every
-- update of an active session comes before the session expires, a user has at most as many active and unexpired
-- sessions as the configuration allows, then and at any time later.
pub run-bounded :
    (config : AuthMiddlewareConfig) (user_id : String) (calls : List (Time × Call)) (later : Time)
    → IsOrdered 0 (map (λ (c : Time × Call). c.0) calls)
    → All (λ (c : Time × Call). c.0 ≤ later) calls
    → ArePrompt config calls []
    → count_active user_id later (run config calls []) ≤ config.max_active_sessions
unfolding count_active
run-bounded config user_id calls later o a u =
    run-bounded_from config user_id calls 0 [] later o a (omega arith) u (omega arith)
