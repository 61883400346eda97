-- ===== src/Auth/Login/Limit.antt =====
-- How many guesses the rate limit of `Login` of internal/infrastructure/auth.go lets through.
use Prim.Native.String.{String}
use text.Mathlib.Text.{◌==◌}
use text.Mathlib.TextEquality.{eq_iff}
use hotel_reviews_microservi.Base.{
  ℕ, ◌+◌, ◌≤◌, ◌<◌, ◌≡◌, refl, ap, inl, inr, Bool, true, false, ◌&&◌, not, Bool-cases, Option-cases,
  List, [], ◌∷◌, leb, All, arith, Time,
}
use hotel_reviews_microservi.Auth.Login.{
  Account, LoginAttempt, Tables, Login, LoginResult, invalid_credentials, account_locked,
  login_attempt_window, max_login_attempts, get_login_attempts, count_failed, is_rate_limited,
  record_login_attempt, reject_password, accept_password, open_session, grant, login_user, login,
  found_user,
}

-- The results of calls of `Login`, one after the other.
unfoldable pub login_results :
    (String → String → Bool) → List Login → Tables → List (Login × LoginResult)
login_results matches [] db = []
login_results matches (l ∷ ls) db =
    let (db', result) = login matches l db in (l, result) ∷ login_results matches ls db'

abbrev one_if : Bool → ℕ
one_if true = 1
one_if false = 0

-- The credentials were looked at, and refused.
abbrev pub is_refused : LoginResult → Bool
is_refused invalid_credentials = true
is_refused account_locked = true
is_refused _ = false

module _ (email ip : String) where
  abbrev pub is_guess : Login → LoginResult → Bool
  is_guess l result = l.email == email && l.ip_address == ip && is_refused result

  -- How many of them were refused for the email and the address.
  unfoldable pub count_guesses : List (Login × LoginResult) → ℕ
  count_guesses [] = 0
  count_guesses (e ∷ results) = one_if (is_guess e.0 e.1) + count_guesses results

  module _ (start : Time) where
    abbrev is_recent : LoginAttempt → Bool
    is_recent a =
        a.attempt_email == email && a.attempt_ip == ip && leb start a.created_at && not a.success

    -- The failed attempts that are stored since the start.
    unfoldable pub count_recent : List LoginAttempt → ℕ
    count_recent [] = 0
    count_recent (a ∷ attempts) = one_if (is_recent a) + count_recent attempts

    recent-failed :
        (now : Time) (attempts : List LoginAttempt)
        → now < start + login_attempt_window
        → count_recent attempts ≤ count_failed (get_login_attempts email ip now attempts)
    unfolding count_recent count_failed get_login_attempts
    recent-failed now [] h = omega arith
    recent-failed now (a ∷ attempts) h = ground (arith, recent-failed now attempts h)

    -- The call is in the period, and its attempt is stored.
    abbrev pub IsStored : Login → Type 0
    IsStored l =
        (l.faults.attempt_fails ≡ false) × (start ≤ l.now) × (l.now < start + login_attempt_window)

    record-recent :
        (l : Login) (success : Bool) (reason : String) (db : Tables)
        → IsStored l
        → count_recent (record_login_attempt l success reason db).attempts
          ≡ one_if (l.email == email && l.ip_address == ip && not success)
            + count_recent db.attempts
    unfolding count_recent record_login_attempt
    record-recent l success reason db s = ground arith

    reject-recent :
        (l : Login) (user : Account) (db : Tables)
        → IsStored l
        → count_recent (reject_password l user db).attempts
          ≡ one_if (l.email == email && l.ip_address == ip) + count_recent db.attempts
    unfolding reject_password record_login_attempt count_recent
    reject-recent l user db s = ground arith

    accept-attempts :
        (l : Login) (user : Account) (db : Tables)
        → (accept_password l user db).attempts ≡ db.attempts
    unfolding accept_password
    accept-attempts l user db = ground arith

    grant-recent :
        (l : Login) (user : Account) (db : Tables)
        → IsStored l
        → let (db', result) = grant l user db in
          count_recent db'.attempts ≡ one_if (is_guess l result) + count_recent db.attempts
    unfolding grant open_session record_login_attempt count_recent
    grant-recent l user db s = ground arith

    login_user-recent :
        (matches : String → String → Bool) (l : Login) (user : Account) (db : Tables)
        → IsStored l
        → let (db', result) = login_user matches l user db in
          count_recent db'.attempts ≡ one_if (is_guess l result) + count_recent db.attempts
    unfolding login_user
    login_user-recent matches l user db s =
        let accepted = accept_password l user db in
        ground (
          arith,
          record-recent l false "account_locked" db s,
          reject-recent l user db s,
          grant-recent l user accepted s,
          ap count_recent (accept-attempts l user db),
        )

    login-recent :
        (matches : String → String → Bool) (l : Login) (db : Tables)
        → IsStored l
        → let (db', result) = login matches l db in
          count_recent db'.attempts ≡ one_if (is_guess l result) + count_recent db.attempts
    unfolding login
    login-recent matches l db s = elim (Option-cases (found_user l db)) [
      | inl e ↦ ground (arith, record-recent l false "user_not_found" db s)
      | inr (user, e) ↦ ground (arith, login_user-recent matches l user db s)
    ]

    below-limit :
        (l : Login) (db : Tables)
        → IsStored l
        → l.email ≡ email
        → l.ip_address ≡ ip
        → is_rate_limited l.now l.email l.ip_address db ≡ false
        → count_recent db.attempts < max_login_attempts
    unfolding is_rate_limited
    below-limit l db (stored, begun, within) e i h =
        let h' : is_rate_limited l.now email ip db ≡ false = rw (e, i) at h in
        ground (arith, recent-failed l.now db.attempts within)

    limited-refused :
        (matches : String → String → Bool) (l : Login) (db : Tables)
        → is_rate_limited l.now l.email l.ip_address db ≡ true
        → is_refused (login matches l db).1 ≡ false
    unfolding login
    limited-refused matches l db h = ground arith

    -- A guess is made below the limit only.
    login-limited :
        (matches : String → String → Bool) (l : Login) (db : Tables)
        → IsStored l
        → count_recent db.attempts ≤ max_login_attempts
        → one_if (is_guess l (login matches l db).1) + count_recent db.attempts ≤ max_login_attempts
    login-limited matches l db s h =
        elim (Bool-cases (is_rate_limited l.now l.email l.ip_address db)) [
          | inl yes_limited ↦ ground (arith, limited-refused matches l db yes_limited)
          | inr free ↦ ground (
            arith,
            eq_iff l.email email,
            eq_iff l.ip_address ip,
            λ (e : l.email ≡ email). λ (i : l.ip_address ≡ ip). below-limit l db s e i free,
          )
        ]

    count_guesses-from :
        (matches : String → String → Bool) (ls : List Login) (db : Tables)
        → All IsStored ls
        → count_recent db.attempts ≤ max_login_attempts
        → count_guesses (login_results matches ls db) + count_recent db.attempts
          ≤ max_login_attempts
    unfolding count_guesses login_results
    count_guesses-from matches [] db a h = omega arith
    count_guesses-from matches (l ∷ ls) db (s, a) h =
        let db' = (login matches l db).0 in
        let counted = login-recent matches l db s in
        let limited = login-limited matches l db s h in
        omega (arith, count_guesses-from matches ls db' a (omega arith))

-- Whatever calls of `Login` are made one after the other within one window, for whatever emails and from whatever addresses, if
-- each attempt is stored and none was stored before, at most five of those for one email and from one
-- address are refused for their credentials or a locked account: the others are refused as too many before
-- the password is looked at, or end otherwise.
pub count_guesses-login :
    (matches : String → String → Bool) (email ip : String) (start : Time) (ls : List Login)
    (db : Tables)
    → db.attempts ≡ []
    → All (IsStored email ip start) ls
    → count_guesses email ip (login_results matches ls db) ≤ max_login_attempts
unfolding count_recent
count_guesses-login matches email ip start ls db e a =
    let none_yet : count_recent email ip start db.attempts ≡ 0 = rw e refl in
    omega (arith, count_guesses-from email ip start matches ls db a (omega arith))
