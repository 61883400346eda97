-- ===== src/Auth/Login.antt =====
-- `Login`, `IsRateLimited` and `RecordLoginAttempt` of internal/infrastructure/auth.go, with the queries of
-- `AuthRepository`, over the tables they work on. A user is given by the text of the UUID.
pub mod Limit
mod Examples
use Prim.Native.String.{String}
use text.Mathlib.Text.{◌==◌}
use hotel_reviews_microservi.Base.{
  ℕ, suc, ◌+◌, ◌*◌, Bool, true, false, ◌&&◌, not, Option, none, some, List, [], ◌∷◌, if◌then◌else◌,
  ltb, leb, map, Time, Duration, second,
}

abbrev pub max_login_attempts : ℕ
max_login_attempts = 5

abbrev pub login_attempt_window : Duration
login_attempt_window = 900 * second

abbrev pub account_lock_duration : Duration
account_lock_duration = 1800 * second

-- The columns that `Login` reads or writes.
pub record Account : Type 0 where
  pub id : String
  pub email : String
  pub password_hash : String
  pub failed_attempts : ℕ
  pub locked_until : Option Time
  pub last_login_at : Option Time

pub record LoginAttempt : Type 0 where
  pub attempt_email : String
  pub attempt_ip : String
  pub success : Bool
  pub failure_reason : String
  pub created_at : Time

pub record Session : Type 0 where
  pub user_id : String
  pub access_token : String
  pub refresh_token : String
  pub expires_at : Time
  pub refresh_expires_at : Time
  pub ip_address : String

-- The tables; of the audit log, the users that have logged in.
pub record Tables : Type 0 where
  pub users : List Account
  pub attempts : List LoginAttempt
  pub sessions : List Session
  pub audit_logs : List String

-- Which of its calls of the database fail, which they then do without a change.
pub record Faults : Type 0 where
  pub get_attempts_fails : Bool
  pub get_user_fails : Bool
  pub increment_fails : Bool
  pub lock_fails : Bool
  pub reset_fails : Bool
  pub last_login_fails : Bool
  pub session_fails : Bool
  pub attempt_fails : Bool
  pub audit_fails : Bool

-- A call of `Login`, with its moment and the tokens that the library makes, `none` for an error.
pub record Login : Type 0 where
  pub now : Time
  pub email : String
  pub password : String
  pub ip_address : String
  pub new_access_token : Option String
  pub new_refresh_token : Option String
  pub faults : Faults

pub data LoginResult : Type 0 where
  too_many_attempts invalid_credentials account_locked other_error : LoginResult
  granted : String → String → String → LoginResult

-- The queries.
unfoldable pub get_login_attempts : String → String → Time → List LoginAttempt → List LoginAttempt
get_login_attempts email ip now [] = []
get_login_attempts email ip now (a ∷ attempts) =
    let rest = get_login_attempts email ip now attempts in
    if a.attempt_email == email
      && a.attempt_ip == ip
      && ltb now (a.created_at + login_attempt_window)
    then a ∷ rest
    else rest

unfoldable pub get_user_by_email : String → List Account → Option Account
get_user_by_email email [] = none
get_user_by_email email (u ∷ users) =
    if u.email == email then some u else get_user_by_email email users

unfoldable pub update_user : String → (Account → Account) → List Account → List Account
update_user id f users = map (λ u. if u.id == id then f u else u) users

unfoldable pub count_failed : List LoginAttempt → ℕ
count_failed [] = 0
count_failed (a ∷ attempts) =
    let rest = count_failed attempts in if not a.success then suc rest else rest

unfoldable pub is_rate_limited : Time → String → String → Tables → Bool
is_rate_limited now email ip db =
    leb max_login_attempts (count_failed (get_login_attempts email ip now db.attempts))

abbrev pub unless : Bool → (Tables → Tables) → Tables → Tables
unless fails f db = if fails then db else f db

unfoldable pub record_login_attempt : Login → Bool → String → Tables → Tables
record_login_attempt l success reason db = if l.faults.attempt_fails then db else record db {
  attempts =
      record {
        attempt_email = l.email;
        attempt_ip = l.ip_address;
        success = success;
        failure_reason = reason;
        created_at = l.now;
      }
      ∷ db.attempts;
}

abbrev pub is_locked : Time → Option Time → Bool
is_locked now none = false
is_locked now (some until) = ltb now until

-- The user's row, changed.
abbrev change : String → (Account → Account) → Tables → Tables
change id f db = record db { users = update_user id f db.users }

unfoldable pub reject_password : Login → Account → Tables → Tables
reject_password l user db =
    let db1 =
      unless l.faults.increment_fails
        (change user.id λ u. record u { failed_attempts = suc u.failed_attempts }) db in
    let db2 =
      if leb max_login_attempts (user.failed_attempts + 1)
      then unless l.faults.lock_fails
          (change user.id λ u. record u { locked_until = some (l.now + account_lock_duration) }) db1
      else db1 in
    record_login_attempt l false "invalid_password" db2

unfoldable pub accept_password : Login → Account → Tables → Tables
accept_password l user db =
    unless l.faults.last_login_fails (change user.id λ u. record u { last_login_at = some l.now }) (
      unless l.faults.reset_fails
        (change user.id λ u. record u { failed_attempts = 0; locked_until = none }) db)

-- The session is stored, and the login recorded.
unfoldable pub open_session : Login → Account → String → String → Tables → Tables × LoginResult
open_session l user access refresh db =
    let session : Session = record {
      user_id = user.id;
      access_token = access;
      refresh_token = refresh;
      expires_at = l.now + 900 * second;
      refresh_expires_at = l.now + 604800 * second;
      ip_address = l.ip_address;
    } in
    let recorded =
      record_login_attempt l true "" (record db { sessions = session ∷ db.sessions }) in
    if l.faults.session_fails then (db, other_error) else (
      unless l.faults.audit_fails (λ t. record t { audit_logs = user.id ∷ t.audit_logs }) recorded,
      granted user.id access refresh,
    )

unfoldable pub grant : Login → Account → Tables → Tables × LoginResult
grant l user db = elim l.new_access_token [
  | none ↦ (db, other_error)
  | some access ↦ elim l.new_refresh_token [
    | none ↦ (db, other_error)
    | some refresh ↦ open_session l user access refresh db
  ]
]

-- `matches hash password` is the password library's answer.
unfoldable pub login_user :
    (String → String → Bool) → Login → Account → Tables → Tables × LoginResult
login_user matches l user db =
    if is_locked l.now user.locked_until
    then (record_login_attempt l false "account_locked" db, account_locked)
    else if not (matches user.password_hash l.password)
    then (reject_password l user db, invalid_credentials)
    else grant l user (accept_password l user db)

abbrev found_user : Login → Tables → Option Account
found_user l db = if l.faults.get_user_fails then none else get_user_by_email l.email db.users

unfoldable pub login : (String → String → Bool) → Login → Tables → Tables × LoginResult
login matches l db =
    if l.faults.get_attempts_fails
    then (db, other_error)
    else if is_rate_limited l.now l.email l.ip_address db
    then (db, too_many_attempts)
    else elim (found_user l db) [
      | none ↦ (record_login_attempt l false "user_not_found" db, invalid_credentials)
      | some user ↦ login_user matches l user db
    ]
