-- ===== src/Auth/Tokens/Examples.antt =====
-- The tokens, passwords and API keys at concrete inputs: tests, and the inputs of their theorems.
use hotel_reviews_microservi.Base.{
  codes, if◌then◌else◌, ℕ, ◌+◌, ◌≡◌, ◌≢◌, ◌↔◌, refl, true, false, none, some, [], ◌∷◌, ◌==◌, arith,
}
use hotel_reviews_microservi.Processing.Types.{Bytes, bytes_eq}
use hotel_reviews_microservi.Auth.Password.{
  validate_password_strength, byte_length, is_special, no_digit, IsStrong,
  validate_password_strength_iff,
}
use hotel_reviews_microservi.Auth.Tokens.{
  SessionRow, Store, Libraries, Refresh, refused, renewed, refresh_token, change_password,
  reset_password, register, hash_password, get_user_by_id, get_user_with_email,
  get_session_by_refresh_token, save_session, cleanup_expired_sessions,
}
use hotel_reviews_microservi.Auth.Tokens.Sessions.{refresh_token-once, refresh_token-cleanup}
use hotel_reviews_microservi.Auth.ApiKeys.{
  ApiKey, NewKey, KeyLibrary, row_of, generate_api_key, validate_api_key, get_api_key_by_key,
  validate_api_key-generate_api_key,
}

weak : validate_password_strength (codes "Password!") ≡ some no_digit
unfolding validate_password_strength byte_length is_special
weak = refl

strong : validate_password_strength (codes "Passw0rd!") ≡ none
unfolding validate_password_strength byte_length is_special
strong = refl

validate_password_strength_iff_example :
    (validate_password_strength (codes "Passw0rd!") ≡ none) ↔ IsStrong (codes "Passw0rd!")
validate_password_strength_iff_example = validate_password_strength_iff (codes "Passw0rd!")

-- Every token is the user 1's, and a hash is the password and one.
abbrev libraries : Libraries
libraries = record {
  validate_access = λ now token. some 1;
  validate_refresh = λ now token. some 1;
  compare_password = λ hash password. hash == password + 1;
  generate_from_password = λ password. some (password + 1);
  runes_of = λ password. if password == 6 then codes "weak" else codes "Passw0rd!";
}

abbrev session : SessionRow
session = record {
  id = 4;
  user_id = 1;
  access_token = 10;
  refresh_token = 20;
  expires_at = 900;
  refresh_expires_at = 5000;
  is_active = true;
}

abbrev store : Store
store = record {
  users = record { id = 1; email = 2; password_hash = 8; is_active = true } ∷ [];
  sessions = session ∷ [];
  user_roles = [];
}

abbrev refresh : ℕ → Refresh
refresh made = record {
  now = 1000;
  token = 20;
  new_access = some 11;
  new_refresh = some made;
  update_fails = false;
}

password_changed : (change_password libraries 1 7 9 store).1 ≡ true
unfolding change_password hash_password validate_password_strength byte_length is_special
    get_user_by_id
password_changed = refl

password_reset : (reset_password libraries 3 9 store).1 ≡ false
unfolding reset_password get_user_with_email
password_reset = refl

same_email :
    (register libraries
      (record { id = 3; email = 2; password_hash = 0; is_active = true })
      5
      none
      store).1
    ≡ false
unfolding register hash_password validate_password_strength byte_length is_special get_user_by_id
    get_user_with_email
same_email = refl

weak_refused : (change_password libraries 1 7 6 store).1 ≡ false
unfolding change_password hash_password validate_password_strength byte_length is_special
    get_user_by_id
weak_refused = refl

refreshed : (refresh_token libraries (refresh 21) store).1 ≡ renewed 1 11 21
unfolding refresh_token get_user_by_id get_session_by_refresh_token save_session
refreshed = refl

other_token : ◌≢◌ {A = ℕ} 21 20
other_token e = absurd (omega (arith, e))

refresh_token-once_example :
    refresh_token libraries (refresh 22) (refresh_token libraries (refresh 21) store).0
    ≡ ((refresh_token libraries (refresh 21) store).0, refused)
refresh_token-once_example =
    refresh_token-once libraries (refresh 21) (refresh 22) store 1 11 21 (tt, tt) refreshed
      other_token refl

found_session : get_session_by_refresh_token 20 store.sessions ≡ some session
unfolding get_session_by_refresh_token
found_session = refl

refresh_token-cleanup_example :
    let cleaned = record store { sessions = cleanup_expired_sessions 1000 store.sessions } in
    refresh_token libraries (refresh 21) cleaned ≡ (cleaned, refused)
refresh_token-cleanup_example =
    refresh_token-cleanup libraries (refresh 21) 1000 session store (tt, tt) found_session
      (omega arith)

-- The hash of a key is the key.
abbrev key_library : KeyLibrary
key_library = record {
  generate_from_password = λ key. some key;
  compare_hash_and_password = λ hash key. bytes_eq hash key;
}

abbrev new_key : NewKey
new_key = record {
  id = 6;
  random = some (codes "abc");
  user_id = 1;
  scopes = 3 ∷ [];
  expires_at = some 2000;
  insert_fails = false;
}

abbrev key_row : ApiKey
key_row = row_of new_key (codes "hr_abc") (codes "hr_abc")

same_bytes : (xs : Bytes) → bytes_eq xs xs ≡ true
same_bytes [] = refl
same_bytes (x ∷ xs) = ground (arith, same_bytes xs)

compares : (key hash : Bytes) → some key ≡ some hash → bytes_eq hash key ≡ true
compares key hash h = ground (arith, h, same_bytes key)

key_made : (generate_api_key key_library new_key []).1 ≡ some key_row
unfolding generate_api_key
key_made = refl

validate_api_key-generate_api_key_example :
    let validated =
      validate_api_key key_library 1500 false key_row.key
        (generate_api_key key_library new_key []).0 in
    (validated.1 ≡ some key_row)
    × (key_row.user_id ≡ new_key.user_id)
    × (key_row.scopes ≡ new_key.scopes)
    × (get_api_key_by_key key_row.key validated.0
        ≡ some (record key_row { usage_count = 1; last_used_at = some 1500 }))
validate_api_key-generate_api_key_example =
    validate_api_key-generate_api_key key_library new_key [] key_row 1500 compares key_made refl
