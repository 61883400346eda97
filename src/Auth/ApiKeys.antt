-- ===== src/Auth/ApiKeys.antt =====
-- The API keys of internal/infrastructure/auth.go: `GenerateApiKey`, `ValidateApiKey` and their queries, and
-- `CheckPermission` over the tables of roles and permissions. UUIDs are numbers; a key is the list of its bytes.
use hotel_reviews_microservi.Base.{
  codes, ℕ, ◌+◌, ◌≡◌, refl, Bool, true, false, ◌&&◌, not, Option, none, some, List, [], ◌∷◌, ◌++◌,
  if◌then◌else◌, ltb, ◌==◌, Time, arith, Option-cases, inl, inr,
}
use hotel_reviews_microservi.Processing.Types.{Bytes, bytes_eq}
use hotel_reviews_microservi.Processing.Url.{has_prefix}

abbrev pub api_key_prefix : Bytes
api_key_prefix = codes "hr_"

-- The row holds the key itself, beside its hash.
pub record ApiKey : Type 0 where
  pub id : ℕ
  pub user_id : ℕ
  pub key : Bytes
  pub key_hash : Bytes
  pub is_active : Bool
  pub expires_at : Option Time
  pub last_used_at : Option Time
  pub usage_count : ℕ
  pub scopes : List ℕ

-- The library of hashes: the hash of a key, which may fail, and the comparison.
pub record KeyLibrary : Type 0 where
  pub generate_from_password : Bytes → Option Bytes
  pub compare_hash_and_password : Bytes → Bytes → Bool

unfoldable pub get_api_key_by_key : Bytes → List ApiKey → Option ApiKey
get_api_key_by_key key [] = none
get_api_key_by_key key (k ∷ keys) =
    if bytes_eq k.key key && k.is_active then some k else get_api_key_by_key key keys

unfoldable pub update_api_key_usage : ℕ → Time → List ApiKey → List ApiKey
update_api_key_usage id now [] = []
update_api_key_usage id now (k ∷ keys) =
    (if k.id == id
      then record k { usage_count = k.usage_count + 1; last_used_at = some now }
      else k)
    ∷ update_api_key_usage id now keys

-- A call of `GenerateApiKey`: the UUID, the random part of the key in base64, or `none` where it fails, the owner,
-- and whether the insertion fails.
pub record NewKey : Type 0 where
  pub id : ℕ
  pub random : Option Bytes
  pub user_id : ℕ
  pub scopes : List ℕ
  pub expires_at : Option Time
  pub insert_fails : Bool

abbrev pub row_of : NewKey → Bytes → Bytes → ApiKey
row_of n key hash = record {
  id = n.id;
  user_id = n.user_id;
  key = key;
  key_hash = hash;
  is_active = true;
  expires_at = n.expires_at;
  last_used_at = none;
  usage_count = 0;
  scopes = n.scopes;
}

-- `before(expiry, now)`, where there is an expiry.
abbrev pub has_expired : Option Time → Time → Bool
has_expired none now = false
has_expired (some expiry) now = ltb expiry now

module _ (lib : KeyLibrary) where
  abbrev insert_key : NewKey → Bytes → Option Bytes → List ApiKey → List ApiKey × Option ApiKey
  insert_key n key none keys = (keys, none)
  insert_key n key (some hash) keys =
      if n.insert_fails then (keys, none) else (row_of n key hash ∷ keys, some (row_of n key hash))

  abbrev with_random : NewKey → Option Bytes → List ApiKey → List ApiKey × Option ApiKey
  with_random n none keys = (keys, none)
  with_random n (some random) keys =
      insert_key n (api_key_prefix ++ random)
        (lib.generate_from_password (api_key_prefix ++ random)) keys

  unfoldable pub generate_api_key : NewKey → List ApiKey → List ApiKey × Option ApiKey
  generate_api_key n keys = with_random n n.random keys

  abbrev check_row : Time → Bool → Bytes → Option ApiKey → List ApiKey → List ApiKey × Option ApiKey
  check_row now usage_fails key none keys = (keys, none)
  check_row now usage_fails key (some k) keys =
      if has_expired k.expires_at now
      then (keys, none)
      else if not (lib.compare_hash_and_password k.key_hash key)
      then (keys, none)
      else (if usage_fails then keys else update_api_key_usage k.id now keys, some k)

  -- A failed update of the usage is only logged.
  unfoldable pub validate_api_key : Time → Bool → Bytes → List ApiKey → List ApiKey × Option ApiKey
  validate_api_key now usage_fails key keys =
      if not (has_prefix key api_key_prefix)
      then (keys, none)
      else check_row now usage_fails key (get_api_key_by_key key keys) keys

bytes_eq_refl : (xs : Bytes) → bytes_eq xs xs ≡ true
bytes_eq_refl [] = refl
bytes_eq_refl (x ∷ xs) = ground (arith, bytes_eq_refl xs)

module _ (lib : KeyLibrary) where
  -- Where the library's comparison accepts a key against its own hash, a key that was generated is validated until
  -- it expires, as its owner's with its scopes, and counted as used once.
  pub validate_api_key-generate_api_key :
      (n : NewKey) (keys : List ApiKey) (k : ApiKey) (now : Time)
      → ((key hash : Bytes)
          → lib.generate_from_password key ≡ some hash
          → lib.compare_hash_and_password hash key ≡ true)
      → (generate_api_key lib n keys).1 ≡ some k
      → has_expired n.expires_at now ≡ false
      → let validated = validate_api_key lib now false k.key (generate_api_key lib n keys).0 in
        (validated.1 ≡ some k)
        × (k.user_id ≡ n.user_id)
        × (k.scopes ≡ n.scopes)
        × (get_api_key_by_key k.key validated.0
            ≡ some (record k { usage_count = 1; last_used_at = some now }))
  unfolding generate_api_key validate_api_key get_api_key_by_key update_api_key_usage
  validate_api_key-generate_api_key n keys k now compares made alive =
      elim (Option-cases n.random) [
        | inl failed ↦ absurd (ground (arith, failed, made))
        | inr (random, drawn) ↦
            let key = api_key_prefix ++ random in
            elim (Option-cases (lib.generate_from_password key)) [
              | inl failed ↦ absurd (ground (arith, drawn, failed, made))
              | inr (hash, hashed) ↦
                  let goes : n.insert_fails ≡ false = ground (arith, drawn, hashed, made) in
                  let whole : row_of n key hash ≡ k = ground (arith, drawn, hashed, goes, made) in
                  rw (← whole) (
                    ground (
                      arith,
                      drawn,
                      hashed,
                      goes,
                      alive,
                      compares key hash hashed,
                      bytes_eq_refl random,
                    ),
                    refl,
                    refl,
                    ground (
                      arith,
                      drawn,
                      hashed,
                      goes,
                      alive,
                      compares key hash hashed,
                      bytes_eq_refl random,
                    ),
                  )
            ]
      ]
