-- ===== src/Auth/Password.antt =====
-- `ValidatePasswordStrength` of internal/infrastructure/auth.go. A password is the list of its runes.
use hotel_reviews_microservi.Base.{
  codes, ℕ, ◌+◌, ◌≤◌, ◌≡◌, ◌↔◌, Bool, true, false, ◌&&◌, ◌||◌, not, Option, none, some, List, [],
  ◌∷◌, if◌then◌else◌, ltb, leb, ◌==◌, arith,
}

abbrev min_password_length : ℕ
min_password_length = 8

abbrev max_password_length : ℕ
max_password_length = 128

pub data PasswordError : Type 0 where
  too_short too_long no_lowercase no_uppercase no_digit no_special : PasswordError

-- The bytes of a rune in UTF-8; `len` counts these.
abbrev rune_length : ℕ → ℕ
rune_length c = if ltb c 0x80 then 1 else if ltb c 0x800 then 2 else if ltb c 0x10000 then 3 else 4

unfoldable pub byte_length : List ℕ → ℕ
byte_length [] = 0
byte_length (c ∷ runes) = rune_length c + byte_length runes

abbrev between : ℕ → ℕ → ℕ → Bool
between low high c = leb low c && leb c high

abbrev pub is_lower : ℕ → Bool
is_lower c = between b'a' b'z' c

abbrev pub is_upper : ℕ → Bool
is_upper c = between b'A' b'Z' c

abbrev pub is_digit : ℕ → Bool
is_digit c = between b'0' b'9' c

abbrev contains_rune : List ℕ → ℕ → Bool
contains_rune [] c = false
contains_rune (x ∷ xs) c = x == c || contains_rune xs c

unfoldable pub is_special : ℕ → Bool
is_special c = contains_rune (codes "!@#$%^&*()_+-=[]{}|;:,.<>?") c

pub record Classes : Type 0 where
  pub has_lower : Bool
  pub has_upper : Bool
  pub has_digit : Bool
  pub has_special : Bool

abbrev no_classes : Classes
no_classes = record { has_lower = false; has_upper = false; has_digit = false; has_special = false }

-- The `switch`.
unfoldable pub note_rune : ℕ → Classes → Classes
note_rune c k =
    if is_lower c
    then record k { has_lower = true }
    else if is_upper c
    then record k { has_upper = true }
    else if is_digit c
    then record k { has_digit = true }
    else if is_special c
    then record k { has_special = true }
    else k

unfoldable pub note_runes : List ℕ → Classes → Classes
unfolding note_rune
note_runes [] k = k
note_runes (c ∷ runes) k = note_runes runes (note_rune c k)

unfoldable pub missing_class : Classes → Option PasswordError
missing_class k =
    if not k.has_lower
    then some no_lowercase
    else if not k.has_upper
    then some no_uppercase
    else if not k.has_digit
    then some no_digit
    else if not k.has_special
    then some no_special
    else none

-- `none` is nil.
unfoldable pub validate_password_strength : List ℕ → Option PasswordError
unfolding note_runes missing_class
validate_password_strength password =
    if ltb (byte_length password) min_password_length
    then some too_short
    else if ltb max_password_length (byte_length password)
    then some too_long
    else missing_class (note_runes password no_classes)

abbrev pub any : (ℕ → Bool) → List ℕ → Bool
any test [] = false
any test (c ∷ runes) = test c || any test runes

-- What has the class of a special character: it is in the list, and neither a letter nor a digit.
abbrev pub is_other : ℕ → Bool
is_other c = not (is_lower c) && not (is_upper c) && not (is_digit c) && is_special c

note_runes_lem :
    (runes : List ℕ) (k : Classes)
    → note_runes runes k ≡ record k {
      has_lower = k.has_lower || any is_lower runes;
      has_upper = k.has_upper || any is_upper runes;
      has_digit = k.has_digit || any is_digit runes;
      has_special = k.has_special || any is_other runes;
    }
unfolding note_runes
note_runes_lem [] k = ground arith
note_runes_lem (c ∷ runes) k = ground (arith, note_runes_lem runes (note_rune c k))

-- The description of a strong password, in terms of its runes.
pub record IsStrong (password : List ℕ) : Type 0 where
  pub long_enough : 8 ≤ byte_length password
  pub short_enough : byte_length password ≤ 128
  pub lower : any is_lower password ≡ true
  pub upper : any is_upper password ≡ true
  pub digit : any is_digit password ≡ true
  pub special : any is_other password ≡ true

-- A password passes exactly when it has from 8 to 128 bytes in UTF-8, a lowercase and an uppercase letter, a digit,
-- and a listed special character.
pub validate_password_strength_iff :
    (password : List ℕ) → (validate_password_strength password ≡ none) ↔ IsStrong password
unfolding validate_password_strength
validate_password_strength_iff password =
    let loop = note_runes_lem password no_classes in
    (λ passed. ground (arith, loop, passed), λ strong. ground (arith, loop, strong))
