-- ===== src/Base/Maps.antt =====
-- A Go map with string keys, as the list of its entries.
use Prim.Native.String.{String}
use text.Mathlib.Text.{◌==◌}
use text.Mathlib.TextEquality.{eq_iff}
use hotel_reviews_microservi.Base.{
  ◌≡◌, ◌≢◌, refl, subst, Option, none, some, List, [], ◌∷◌, arith, inl, inr, All, if◌then◌else◌,
  Bool-cases, Bool, true, false, ◌⊎◌,
}

-- `m[key]`, with its second result.
unfoldable pub get {ℓ} : {V : Type ℓ} → String → List (String × V) → Option V
get key [] = none
get key (e ∷ m) = if e.0 == key then some e.1 else get key m

-- `delete(m, key)`.
unfoldable pub delete {ℓ} : {V : Type ℓ} → String → List (String × V) → List (String × V)
delete key [] = []
delete key (e ∷ m) = let rest = delete key m in if e.0 == key then rest else e ∷ rest

-- `m[key] = v`; the new entry comes first, which the random order of Go's maps allows.
unfoldable pub put {ℓ} : {V : Type ℓ} → String → V → List (String × V) → List (String × V)
unfolding delete
put key v m = (key, v) ∷ delete key m

module _ {ℓ} {V : Type ℓ} (key other : String) (different : other ≢ key) where
  pub get-delete_ne : (m : List (String × V)) → get other (delete key m) ≡ get other m
  unfolding get delete
  get-delete_ne [] = refl
  get-delete_ne (e ∷ m) =
      ground (arith, eq_iff e.0 key, eq_iff e.0 other, get-delete_ne m, different)

  -- A write leaves every other key as it was.
  pub get-put_ne : (v : V) (m : List (String × V)) → get other (put key v m) ≡ get other m
  unfolding get put
  get-put_ne v m = ground (arith, eq_iff key other, get-delete_ne m)

-- Every value of the map satisfies the predicate.
abbrev pub AllValues {ℓ κ} : {V : Type ℓ} → (V → Type κ) → List (String × V) → Type κ
AllValues P = All λ e. P e.1

module _ {ℓ κ} {V : Type ℓ} (P : V → Type κ) (key : String) where
  pub get-AllValues : (m : List (String × V)) {v : V} → AllValues P m → get key m ≡ some v → P v
  unfolding get
  get-AllValues [] a h = cc
  get-AllValues (e ∷ m) a h = elim (Bool-cases (e.0 == key)) [
    | inl hit ↦ subst P (ground arith) a.0
    | inr miss ↦ get-AllValues m a.1 (ground arith)
  ]

  delete-AllValues : (m : List (String × V)) → AllValues P m → AllValues P (delete key m)
  unfolding delete
  delete-AllValues [] a = a
  delete-AllValues (e ∷ m) a = elim (Bool-cases (e.0 == key)) [
    | inl hit ↦ rw hit (delete-AllValues m a.1)
    | inr miss ↦ rw miss (a.0, delete-AllValues m a.1)
  ]

  pub put-AllValues :
      (v : V) (m : List (String × V)) → P v → AllValues P m → AllValues P (put key v m)
  unfolding put
  put-AllValues v m p a = (p, delete-AllValues m a)

module _ {ℓ} {V : Type ℓ} (key : String) where
  pub get-put_self : (v : V) (m : List (String × V)) → get key (put key v m) ≡ some v
  unfolding get put
  get-put_self v m = ground (arith, eq_iff key key)

  pub get-delete_self : (m : List (String × V)) → get key (delete key m) ≡ none
  unfolding get delete
  get-delete_self [] = refl
  get-delete_self (e ∷ m) = ground (arith, eq_iff e.0 key, get-delete_self m)

-- No key occurs twice.
abbrev pub IsDistinct {ℓ} : {V : Type ℓ} → List (String × V) → Type ℓ
IsDistinct [] = Unit
IsDistinct (e ∷ m) = (get e.0 m ≡ none) × IsDistinct m

module _ {ℓ} {V : Type ℓ} (key : String) where
  get-delete-none :
      (other : String) (m : List (String × V))
      → get other m ≡ none
      → get other (delete key m) ≡ none
  unfolding get delete
  get-delete-none other [] h = refl
  get-delete-none other (e ∷ m) h = ground (arith, get-delete-none other m)

  pub delete-IsDistinct : (m : List (String × V)) → IsDistinct m → IsDistinct (delete key m)
  unfolding delete
  delete-IsDistinct [] d = d
  delete-IsDistinct (e ∷ m) d = elim (Bool-cases (e.0 == key)) [
    | inl hit ↦ rw hit (delete-IsDistinct m d.1)
    | inr miss ↦ rw miss (get-delete-none e.0 m d.0, delete-IsDistinct m d.1)
  ]

  pub put-IsDistinct : (v : V) (m : List (String × V)) → IsDistinct m → IsDistinct (put key v m)
  unfolding put
  put-IsDistinct v m d = (get-delete_self key m, delete-IsDistinct m d)

-- `for key, v := range m { if test(v) { delete(m, key) } }`.
unfoldable pub delete_if {ℓ} : {V : Type ℓ} → (V → Bool) → List (String × V) → List (String × V)
delete_if test [] = []
delete_if test (e ∷ m) = let rest = delete_if test m in if test e.1 then rest else e ∷ rest

module _ {ℓ} {V : Type ℓ} (test : V → Bool) where
  pub get-delete_if-none :
      (key : String) (m : List (String × V)) → get key m ≡ none → get key (delete_if test m) ≡ none
  unfolding get delete_if
  get-delete_if-none key [] h = refl
  get-delete_if-none key (e ∷ m) h = ground (arith, get-delete_if-none key m)

  -- What is found under a key is kept, or passes the test and is gone.
  pub get-delete_if :
      (key : String) (m : List (String × V)) (v : V)
      → IsDistinct m
      → get key m ≡ some v
      → (get key (delete_if test m) ≡ some v) × (test v ≡ false)
        ⊎ (get key (delete_if test m) ≡ none) × (test v ≡ true)
  unfolding get delete_if
  get-delete_if key [] v d h = cc
  get-delete_if key (e ∷ m) v d h = elim (Bool-cases (e.0 == key)) [
    | inl hit ↦ ground (arith, eq_iff e.0 key, get-delete_if-none e.0 m d.0)
    | inr miss ↦ ground (arith, get-delete_if key m v d.1)
  ]

  pub delete_if-IsDistinct : (m : List (String × V)) → IsDistinct m → IsDistinct (delete_if test m)
  unfolding delete_if
  delete_if-IsDistinct [] d = d
  delete_if-IsDistinct (e ∷ m) d = elim (Bool-cases (test e.1)) [
    | inl x ↦ rw x (delete_if-IsDistinct m d.1)
    | inr x ↦ rw x (get-delete_if-none e.0 m d.0, delete_if-IsDistinct m d.1)
  ]

  pub delete_if-AllValues {κ} :
      (P : V → Type κ) (m : List (String × V)) → AllValues P m → AllValues P (delete_if test m)
  unfolding delete_if
  delete_if-AllValues P [] a = a
  delete_if-AllValues P (e ∷ m) a = elim (Bool-cases (test e.1)) [
    | inl x ↦ rw x (delete_if-AllValues P m a.1)
    | inr x ↦ rw x (a.0, delete_if-AllValues P m a.1)
  ]

module _ {ℓ} {V : Type ℓ} (key other : String) where
  pub get-delete :
      (m : List (String × V))
      → get other (delete key m) ≡ (if key == other then none else get other m)
  unfolding get delete
  get-delete [] = ground arith
  get-delete (e ∷ m) =
      ground (arith, eq_iff e.0 key, eq_iff e.0 other, eq_iff key other, get-delete m)

  pub get-put :
      (v : V) (m : List (String × V))
      → get other (put key v m) ≡ (if key == other then some v else get other m)
  unfolding get put
  get-put v m = ground (arith, get-delete m)

-- A change of every value.
unfoldable pub map_values {ℓ} : {V : Type ℓ} → (V → V) → List (String × V) → List (String × V)
map_values f [] = []
map_values f (e ∷ m) = (e.0, f e.1) ∷ map_values f m
