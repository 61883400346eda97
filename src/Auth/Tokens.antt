-- ===== src/Auth/Tokens.antt =====
-- `RefreshToken`, `Logout`, `ValidateToken`, `ChangePassword`, `ResetPassword` and `Register` of
-- internal/infrastructure/auth.go with their queries, over the tables of users and sessions. UUIDs, tokens,
-- passwords and hashes are numbers that stand for their texts; a row that is deleted is gone, since no query
-- finds it any more.
pub mod Sessions
mod Examples
use hotel_reviews_microservi.Base.{
  ℕ, ◌+◌, ◌*◌, Bool, true, false, ◌&&◌, not, Option, none, some, List, [], ◌∷◌, ◌++◌, if◌then◌else◌,
  ltb, ◌==◌, Time, Duration, second,
}
use hotel_reviews_microservi.Auth.Password.{validate_password_strength}

abbrev pub access_token_expiry : Duration
access_token_expiry = 900 * second

abbrev pub refresh_token_expiry : Duration
refresh_token_expiry = 604800 * second

pub record UserRow : Type 0 where
  pub id : ℕ
  pub email : ℕ
  pub password_hash : ℕ
  pub is_active : Bool

pub record SessionRow : Type 0 where
  pub id : ℕ
  pub user_id : ℕ
  pub access_token : ℕ
  pub refresh_token : ℕ
  pub expires_at : Time
  pub refresh_expires_at : Time
  pub is_active : Bool

-- The tables, and the pairs of a user and a role.
pub record Store : Type 0 where
  pub users : List UserRow
  pub sessions : List SessionRow
  pub user_roles : List (ℕ × ℕ)

-- What the libraries answer at a moment: the user of a valid token of either kind, the comparison of a
-- password with a hash, and a hash, which may fail; and the runes of a password.
pub record Libraries : Type 0 where
  pub validate_access : Time → ℕ → Option ℕ
  pub validate_refresh : Time → ℕ → Option ℕ
  pub compare_password : ℕ → ℕ → Bool
  pub generate_from_password : ℕ → Option ℕ
  pub runes_of : ℕ → List ℕ

-- The queries that find one row.
unfoldable pub get_user_by_id : ℕ → List UserRow → Option UserRow
get_user_by_id id [] = none
get_user_by_id id (u ∷ users) = if u.id == id then some u else get_user_by_id id users

unfoldable pub get_user_with_email : ℕ → List UserRow → Option UserRow
get_user_with_email email [] = none
get_user_with_email email (u ∷ users) =
    if u.email == email then some u else get_user_with_email email users

unfoldable pub get_session_by_access_token : ℕ → List SessionRow → Option SessionRow
get_session_by_access_token token [] = none
get_session_by_access_token token (s ∷ sessions) =
    if s.access_token == token && s.is_active
    then some s
    else get_session_by_access_token token sessions

unfoldable pub get_session_by_refresh_token : ℕ → List SessionRow → Option SessionRow
get_session_by_refresh_token token [] = none
get_session_by_refresh_token token (s ∷ sessions) =
    if s.refresh_token == token && s.is_active
    then some s
    else get_session_by_refresh_token token sessions

-- `Save` of a row that is there.
unfoldable pub save_session : SessionRow → List SessionRow → List SessionRow
save_session row [] = []
save_session row (s ∷ sessions) =
    let rest = save_session row sessions in if s.id == row.id then row ∷ rest else s ∷ rest

unfoldable pub save_user : UserRow → List UserRow → List UserRow
save_user row [] = []
save_user row (u ∷ users) =
    let rest = save_user row users in if u.id == row.id then row ∷ rest else u ∷ rest

unfoldable pub delete_session : ℕ → List SessionRow → List SessionRow
delete_session id [] = []
delete_session id (s ∷ sessions) =
    let rest = delete_session id sessions in if s.id == id then rest else s ∷ rest

unfoldable pub delete_user_sessions : ℕ → List SessionRow → List SessionRow
delete_user_sessions user [] = []
delete_user_sessions user (s ∷ sessions) =
    let rest = delete_user_sessions user sessions in if s.user_id == user then rest else s ∷ rest

unfoldable pub cleanup_expired_sessions : Time → List SessionRow → List SessionRow
cleanup_expired_sessions now [] = []
cleanup_expired_sessions now (s ∷ sessions) =
    let rest = cleanup_expired_sessions now sessions in
    if ltb s.expires_at now then rest else s ∷ rest

pub data TokenResult : Type 0 where
  refused : TokenResult
  renewed : ℕ → ℕ → ℕ → TokenResult

-- A call of `RefreshToken` at a moment, with the tokens that the library makes, `none` for an error, and
-- whether the update of the session fails.
pub record Refresh : Type 0 where
  pub now : Time
  pub token : ℕ
  pub new_access : Option ℕ
  pub new_refresh : Option ℕ
  pub update_fails : Bool

-- The user of a token's claims, if there is one who is active.
unfoldable pub active_user : Option ℕ → List UserRow → Option UserRow
active_user none users = none
active_user (some user_id) users = elim (get_user_by_id user_id users) [
  | none ↦ none
  | some user ↦ if user.is_active then some user else none
]

module _ (lib : Libraries) where
  unfoldable pub renew : Refresh → SessionRow → UserRow → ℕ → ℕ → Store → Store × TokenResult
  renew r s user access refresh db = if r.update_fails then (db, refused) else (
    record db {
      sessions =
          save_session
            (record s {
              access_token = access;
              refresh_token = refresh;
              expires_at = r.now + access_token_expiry;
              refresh_expires_at = r.now + refresh_token_expiry;
            })
            db.sessions;
    },
    renewed user.id access refresh,
  )

  unfoldable pub make_tokens : Refresh → SessionRow → UserRow → Store → Store × TokenResult
  unfolding renew
  make_tokens r s user db = elim r.new_access [
    | none ↦ (db, refused)
    | some access ↦ elim r.new_refresh [
      | none ↦ (db, refused)
      | some refresh ↦ renew r s user access refresh db
    ]
  ]

  unfoldable pub refresh_session : Refresh → ℕ → SessionRow → Store → Store × TokenResult
  unfolding make_tokens
  refresh_session r user_id s db =
      if ltb s.refresh_expires_at r.now
      then (db, refused)
      else (elim (get_user_by_id user_id db.users) [
        | none ↦ (db, refused)
        | some user ↦ make_tokens r s user db
      ])

  unfoldable pub refresh_token : Refresh → Store → Store × TokenResult
  unfolding refresh_session
  refresh_token r db = elim (lib.validate_refresh r.now r.token) [
    | none ↦ (db, refused)
    | some user_id ↦ elim (get_session_by_refresh_token r.token db.sessions) [
      | none ↦ (db, refused)
      | some s ↦ refresh_session r user_id s db
    ]
  ]

  -- `Logout`; the second result tells whether there is such a session.
  unfoldable pub logout : ℕ → Store → Store × Bool
  logout token db = elim (get_session_by_access_token token db.sessions) [
    | none ↦ (db, false)
    | some s ↦ (record db { sessions = delete_session s.id db.sessions }, true)
  ]

  -- `ValidateToken`.
  unfoldable pub validate_token : Time → ℕ → Store → Option UserRow
  validate_token now token db = active_user (lib.validate_access now token) db.users

  -- `HashPassword`; `none` is an error, of a weak password or of the library.
  unfoldable pub hash_password : ℕ → Option ℕ
  unfolding validate_password_strength
  hash_password password = elim (validate_password_strength (lib.runes_of password)) [
    | some weak ↦ none
    | none ↦ lib.generate_from_password password
  ]

  abbrev set_password : UserRow → Option ℕ → Store → Store × Bool
  set_password user none db = (db, false)
  set_password user (some hash) db =
      (record db { users = save_user (record user { password_hash = hash }) db.users }, true)

  -- `ChangePassword`; the second result tells whether it returns nil.
  unfoldable pub change_password : ℕ → ℕ → ℕ → Store → Store × Bool
  change_password user_id old new db = elim (get_user_by_id user_id db.users) [
    | none ↦ (db, false)
    | some user ↦
        if lib.compare_password user.password_hash old
        then set_password user (hash_password new) db
        else (db, false)
  ]

  -- `ResetPassword`, with the password that `GenerateRandomPassword` draws.
  unfoldable pub reset_password : ℕ → ℕ → Store → Store × Bool
  reset_password email drawn db = elim (get_user_with_email email db.users) [
    | none ↦ (db, false)
    | some user ↦ set_password user (hash_password drawn) db
  ]

  -- `Register`, with the row of the default role, if it is there; the table refuses an id or email that it has.
  unfoldable pub register : UserRow → ℕ → Option ℕ → Store → Store × Bool
  register user password default_role db = elim (hash_password password) [
    | none ↦ (db, false)
    | some hash ↦ elim (get_user_by_id user.id db.users) [
      | some other ↦ (db, false)
      | none ↦ elim (get_user_with_email user.email db.users) [
        | some other ↦ (db, false)
        | none ↦ (
          record db {
            users = db.users ++ record user { password_hash = hash } ∷ [];
            user_roles = elim default_role [
              | none ↦ db.user_roles
              | some role ↦ (user.id, role) ∷ db.user_roles
            ];
          },
          true,
        )
      ]
    ]
  ]
