-- ===== src/Auth/Tokens/Sessions.antt =====
-- What becomes of the tokens of a session.
use hotel_reviews_microservi.Base.{
  ℕ, ◌+◌, ◌≤◌, ◌<◌, ◌≡◌, ◌≢◌, refl, ap, sym, ◌∙◌, subst, ◌&&◌, none, some, List, [], ◌∷◌, ltb, ◌==◌,
  Time, arith, All, Bool-cases, Option-cases, inl, inr,
}
use hotel_reviews_microservi.Auth.Tokens.{
  active_user, UserRow, SessionRow, Store, Libraries, get_user_by_id, get_session_by_access_token,
  get_session_by_refresh_token, save_session, cleanup_expired_sessions, refused, renewed, Refresh,
  renew, make_tokens, refresh_session, refresh_token, logout, validate_token, access_token_expiry,
  refresh_token_expiry,
}

-- Each session's id and refresh token occur once.
abbrev pub Differ : SessionRow → SessionRow → Type 0
Differ s t = (s.id ≢ t.id) × (s.refresh_token ≢ t.refresh_token)

abbrev pub AreDistinct : List SessionRow → Type 0
AreDistinct [] = Unit {0}
AreDistinct (s ∷ sessions) = All (Differ s) sessions × AreDistinct sessions

abbrev HasNot : ℕ → List SessionRow → Type 0
HasNot token = All λ t. t.refresh_token ≢ token

HasNot-save_session :
    (token : ℕ) (row : SessionRow) (sessions : List SessionRow)
    → HasNot token sessions
    → row.refresh_token ≢ token
    → get_session_by_refresh_token token (save_session row sessions) ≡ none
unfolding get_session_by_refresh_token save_session
HasNot-save_session token row [] d n = refl
HasNot-save_session token row (x ∷ sessions) d n =
    ground (arith, d.0, n, HasNot-save_session token row sessions d.1 n)

Differ-HasNot :
    (s : SessionRow) (token : ℕ) (sessions : List SessionRow)
    → s.refresh_token ≡ token
    → All (Differ s) sessions
    → HasNot token sessions
Differ-HasNot s token [] e d = tt
Differ-HasNot s token (x ∷ sessions) e d =
    (λ h. ground (arith, e, h, d.0), Differ-HasNot s token sessions e d.1)

get_session_by_refresh_token-All :
    (P : SessionRow → Type 0) (token : ℕ) (s : SessionRow) (sessions : List SessionRow)
    → get_session_by_refresh_token token sessions ≡ some s
    → All P sessions
    → P s
unfolding get_session_by_refresh_token
get_session_by_refresh_token-All P token s [] h all = cc
get_session_by_refresh_token-All P token s (x ∷ sessions) h all =
    elim (Bool-cases (x.refresh_token == token && x.is_active)) [
      | inl hit ↦ subst P (ground (arith, hit, h)) all.0
      | inr miss ↦
          get_session_by_refresh_token-All P token s sessions (ground (arith, miss, h)) all.1
    ]

-- The old token is found no more once its session has another.
save_session-gone :
    (token : ℕ) (row s : SessionRow) (sessions : List SessionRow)
    → AreDistinct sessions
    → get_session_by_refresh_token token sessions ≡ some s
    → row.id ≡ s.id
    → row.refresh_token ≢ token
    → get_session_by_refresh_token token (save_session row sessions) ≡ none
unfolding get_session_by_refresh_token save_session
save_session-gone token row s [] d h e n = cc
save_session-gone token row s (x ∷ sessions) d h e n =
    elim (Bool-cases (x.refresh_token == token && x.is_active)) [
      | inl hit ↦
          let found : x ≡ s = ground (arith, hit, h) in
          let others = Differ-HasNot x token sessions (ground (arith, hit)) d.0 in
          ground (arith, found, e, n, HasNot-save_session token row sessions others n)
      | inr miss ↦
          let later : get_session_by_refresh_token token sessions ≡ some s =
            ground (arith, miss, h) in
          let differ = get_session_by_refresh_token-All (Differ x) token s sessions later d.0 in
          ground (arith, miss, e, differ, save_session-gone token row s sessions d.1 later e n)
    ]

HasNot-cleanup :
    (token : ℕ) (now : Time) (sessions : List SessionRow)
    → HasNot token sessions
    → get_session_by_refresh_token token (cleanup_expired_sessions now sessions) ≡ none
unfolding get_session_by_refresh_token cleanup_expired_sessions
HasNot-cleanup token now [] d = refl
HasNot-cleanup token now (x ∷ sessions) d =
    ground (arith, d.0, HasNot-cleanup token now sessions d.1)

cleanup_expired_sessions-gone :
    (token : ℕ) (now : Time) (s : SessionRow) (sessions : List SessionRow)
    → AreDistinct sessions
    → get_session_by_refresh_token token sessions ≡ some s
    → s.expires_at < now
    → get_session_by_refresh_token token (cleanup_expired_sessions now sessions) ≡ none
unfolding get_session_by_refresh_token cleanup_expired_sessions
cleanup_expired_sessions-gone token now s [] d h e = cc
cleanup_expired_sessions-gone token now s (x ∷ sessions) d h e =
    elim (Bool-cases (x.refresh_token == token && x.is_active)) [
      | inl hit ↦
          let found : x ≡ s = ground (arith, hit, h) in
          let others = Differ-HasNot x token sessions (ground (arith, hit)) d.0 in
          ground (arith, found, e, HasNot-cleanup token now sessions others)
      | inr miss ↦
          let later : get_session_by_refresh_token token sessions ≡ some s =
            ground (arith, miss, h) in
          ground (arith, miss, cleanup_expired_sessions-gone token now s sessions d.1 later e)
    ]

-- What a refresh that succeeds has found and done.
record IsRenewed (r : Refresh) (refresh : ℕ) (db db' : Store) : Type 0 where
  old : SessionRow
  row : SessionRow
  found : get_session_by_refresh_token r.token db.sessions ≡ some old
  in_time : r.now ≤ old.refresh_expires_at
  same_id : row.id ≡ old.id
  new_token : row.refresh_token ≡ refresh
  saved : db'.sessions ≡ save_session row db.sessions

module _ (lib : Libraries) where
  renew-IsRenewed :
      (r : Refresh) (s : SessionRow) (user : UserRow) (access refresh : ℕ) (db : Store) (u a t : ℕ)
      → get_session_by_refresh_token r.token db.sessions ≡ some s
      → r.now ≤ s.refresh_expires_at
      → (renew lib r s user access refresh db).1 ≡ renewed u a t
      → IsRenewed r t db (renew lib r s user access refresh db).0
  unfolding renew
  renew-IsRenewed r s user access refresh db u a t found soon h = elim (Bool-cases r.update_fails) [
    | inl fails ↦ absurd (ground (arith, fails, h))
    | inr goes ↦ simp goes (record {
      old = s;
      row = record s {
        access_token = access;
        refresh_token = refresh;
        expires_at = r.now + access_token_expiry;
        refresh_expires_at = r.now + refresh_token_expiry;
      };
      found = found;
      in_time = soon;
      same_id = refl;
      new_token = ground (arith, goes, h);
      saved = refl;
    })
  ]

  make_tokens-IsRenewed :
      (r : Refresh) (s : SessionRow) (user : UserRow) (db : Store) (u a t : ℕ)
      → get_session_by_refresh_token r.token db.sessions ≡ some s
      → r.now ≤ s.refresh_expires_at
      → (make_tokens lib r s user db).1 ≡ renewed u a t
      → IsRenewed r t db (make_tokens lib r s user db).0
  unfolding make_tokens
  make_tokens-IsRenewed r s user db u a t found soon h = elim (Option-cases r.new_access) [
    | inl none_made ↦ absurd (ground (arith, none_made, h))
    | inr (access, made) ↦ elim (Option-cases r.new_refresh) [
      | inl none_made ↦ absurd (ground (arith, made, none_made, h))
      | inr (refresh, made_too) ↦
          simp (make_tokens, made, made_too)
            (renew-IsRenewed r s user access refresh db u a t found soon
              (ground (arith, made, made_too, h)))
    ]
  ]

  refresh_session-IsRenewed :
      (r : Refresh) (user_id : ℕ) (s : SessionRow) (db : Store) (u a t : ℕ)
      → get_session_by_refresh_token r.token db.sessions ≡ some s
      → (refresh_session lib r user_id s db).1 ≡ renewed u a t
      → IsRenewed r t db (refresh_session lib r user_id s db).0
  unfolding refresh_session
  refresh_session-IsRenewed r user_id s db u a t found h =
      elim (Bool-cases (ltb s.refresh_expires_at r.now)) [
        | inl late ↦ absurd (ground (arith, late, h))
        | inr soon ↦ elim (Option-cases (get_user_by_id user_id db.users)) [
          | inl none_there ↦ absurd (ground (arith, soon, none_there, h))
          | inr (user, there) ↦
              simp (refresh_session, soon, there)
                (make_tokens-IsRenewed r s user db u a t found (ground (arith, soon))
                  (ground (arith, soon, there, h)))
        ]
      ]

  refresh_token-IsRenewed :
      (r : Refresh) (db : Store) (u a t : ℕ)
      → (refresh_token lib r db).1 ≡ renewed u a t
      → IsRenewed r t db (refresh_token lib r db).0
  unfolding refresh_token
  refresh_token-IsRenewed r db u a t h = elim (Option-cases (lib.validate_refresh r.now r.token)) [
    | inl bad ↦ absurd (ground (arith, bad, h))
    | inr (user_id, valid) ↦
        elim (Option-cases (get_session_by_refresh_token r.token db.sessions)) [
          | inl none_there ↦ absurd (ground (arith, valid, none_there, h))
          | inr (s, there) ↦
              simp (refresh_token, valid, there)
                (refresh_session-IsRenewed r user_id s db u a t there
                  (ground (arith, valid, there, h)))
        ]
  ]

  refresh_token-refused :
      (r : Refresh) (db : Store)
      → get_session_by_refresh_token r.token db.sessions ≡ none
      → refresh_token lib r db ≡ (db, refused)
  unfolding refresh_token
  refresh_token-refused r db gone = elim (Option-cases (lib.validate_refresh r.now r.token)) [
    | inl bad ↦ simp (refresh_token, bad)
    | inr (user_id, valid) ↦ simp (refresh_token, valid, gone)
  ]

  -- Where the sessions have different ids and refresh tokens, and a refresh has given a token that differs from its own, a
  -- refresh with the old token that comes right after it, without overlapping it, is refused and changes nothing.
  pub refresh_token-once :
      (r again : Refresh) (db : Store) (user access refresh : ℕ)
      → AreDistinct db.sessions
      → (refresh_token lib r db).1 ≡ renewed user access refresh
      → refresh ≢ r.token
      → again.token ≡ r.token
      → refresh_token lib again (refresh_token lib r db).0 ≡ ((refresh_token lib r db).0, refused)
  refresh_token-once r again db user access refresh distinct h other same =
      let renewal = refresh_token-IsRenewed r db user access refresh h in
      let gone =
        save_session-gone r.token renewal.row renewal.old db.sessions distinct renewal.found
          renewal.same_id (λ e. other (sym renewal.new_token ∙ e)) in
      refresh_token-refused again (refresh_token lib r db).0 (rw (same, renewal.saved) gone)

  logout-users : (token : ℕ) (db : Store) → (logout lib token db).0.users ≡ db.users
  unfolding logout
  logout-users token db =
      ground (arith, Option-cases (get_session_by_access_token token db.sessions))

  -- A logout deletes the session, but every access token that the library holds valid still names its
  -- user, that of the session as well.
  pub validate_token-logout :
      (now : Time) (token ended : ℕ) (db : Store)
      → validate_token lib now token (logout lib ended db).0 ≡ validate_token lib now token db
  unfolding validate_token
  validate_token-logout now token ended db =
      ap (active_user (lib.validate_access now token)) (logout-users ended db)

  -- The cleanup deletes every session whose access token has expired: a refresh at that moment or later is refused,
  -- however long its refresh token would still serve.
  pub refresh_token-cleanup :
      (r : Refresh) (now : Time) (s : SessionRow) (db : Store)
      → AreDistinct db.sessions
      → get_session_by_refresh_token r.token db.sessions ≡ some s
      → s.expires_at < now
      → let cleaned = record db { sessions = cleanup_expired_sessions now db.sessions } in
        refresh_token lib r cleaned ≡ (cleaned, refused)
  refresh_token-cleanup r now s db distinct found expired =
      refresh_token-refused r (record db { sessions = cleanup_expired_sessions now db.sessions })
        (cleanup_expired_sessions-gone r.token now s db.sessions distinct found expired)
