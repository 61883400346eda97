-- ===== src/Auth/Roles.antt =====
-- Roles and permissions of internal/infrastructure/auth.go: `CheckPermission`, `GetUserPermissions` and the queries
-- that assign and remove. UUIDs and names are numbers.
mod Granted
mod Examples
use hotel_reviews_microservi.Base.{
  ℕ, ◌≡◌, ◌↔◌, ◌⊎◌, refl, sym, ap, ◌∙◌, subst, Bool, true, false, ◌&&◌, ◌||◌, not, Option, none,
  some, List, [], ◌∷◌, ◌++◌, if◌then◌else◌, ◌==◌, arith, Bool-cases, inl, inr,
}

pub record Permission : Type 0 where
  pub id : ℕ
  pub resource : ℕ
  pub action : ℕ
  pub is_active : Bool

-- The rows of `user_roles` are pairs of a user and a role, those of `role_permissions` of a role and a permission.
pub record RoleTables : Type 0 where
  pub permissions : List Permission
  pub role_permissions : List (ℕ × ℕ)
  pub user_roles : List (ℕ × ℕ)

abbrev pub any {ℓ} : {A : Type ℓ} → (A → Bool) → List A → Bool
any test [] = false
any test (x ∷ xs) = test x || any test xs

-- The rows that the two joins find for a permission.
unfoldable pub join_users : ℕ → Permission → ℕ → List (ℕ × ℕ) → List Permission
join_users user p role [] = []
join_users user p role (ur ∷ user_roles) =
    let rest = join_users user p role user_roles in
    if ur.1 == role && ur.0 == user then p ∷ rest else rest

unfoldable pub join_roles : ℕ → Permission → List (ℕ × ℕ) → List (ℕ × ℕ) → List Permission
unfolding join_users
join_roles user p [] user_roles = []
join_roles user p (rp ∷ role_permissions) user_roles =
    let rest = join_roles user p role_permissions user_roles in
    if rp.1 == p.id then join_users user p rp.0 user_roles ++ rest else rest

unfoldable pub join_permissions :
    ℕ → List Permission → List (ℕ × ℕ) → List (ℕ × ℕ) → List Permission
unfolding join_roles
join_permissions user [] role_permissions user_roles = []
join_permissions user (p ∷ permissions) role_permissions user_roles =
    let rest = join_permissions user permissions role_permissions user_roles in
    if p.is_active then join_roles user p role_permissions user_roles ++ rest else rest

unfoldable pub get_user_permissions : ℕ → RoleTables → List Permission
unfolding join_permissions
get_user_permissions user db =
    join_permissions user db.permissions db.role_permissions db.user_roles

abbrev pub is_for : ℕ → ℕ → Permission → Bool
is_for resource action p = p.resource == resource && p.action == action

-- The `for` of `CheckPermission`.
unfoldable pub find_permission : ℕ → ℕ → List Permission → Bool
find_permission resource action [] = false
find_permission resource action (p ∷ permissions) =
    if is_for resource action p then true else find_permission resource action permissions

unfoldable pub check_permission : ℕ → ℕ → ℕ → RoleTables → Bool
unfolding find_permission
check_permission user resource action db =
    find_permission resource action (get_user_permissions user db)

-- `INSERT … ON CONFLICT DO NOTHING`.
unfoldable pub insert_pair : ℕ → ℕ → List (ℕ × ℕ) → List (ℕ × ℕ)
insert_pair a b pairs = if any (λ x. x.0 == a && x.1 == b) pairs then pairs else (a, b) ∷ pairs

unfoldable pub assign_role_to_user : ℕ → ℕ → RoleTables → RoleTables
unfolding insert_pair
assign_role_to_user user role db = record db { user_roles = insert_pair user role db.user_roles }

unfoldable pub assign_permission_to_role : ℕ → ℕ → RoleTables → RoleTables
unfolding insert_pair
assign_permission_to_role role permission db = record db {
  role_permissions = insert_pair role permission db.role_permissions;
}

-- `DELETE` of the pair.
unfoldable pub delete_pair : ℕ → ℕ → List (ℕ × ℕ) → List (ℕ × ℕ)
delete_pair a b [] = []
delete_pair a b (x ∷ pairs) =
    let rest = delete_pair a b pairs in if x.0 == a && x.1 == b then rest else x ∷ rest

unfoldable pub remove_role_from_user : ℕ → ℕ → RoleTables → RoleTables
unfolding delete_pair
remove_role_from_user user role db = record db { user_roles = delete_pair user role db.user_roles }

unfoldable pub remove_permission_from_role : ℕ → ℕ → RoleTables → RoleTables
unfolding delete_pair
remove_permission_from_role role permission db = record db {
  role_permissions = delete_pair role permission db.role_permissions;
}
