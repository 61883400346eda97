-- ===== src/Auth/Roles/Granted.antt =====
-- When a user may do something.
use hotel_reviews_microservi.Base.{
  ℕ, ◌≡◌, ◌↔◌, ◌⊎◌, refl, sym, ap, ◌∙◌, subst, Bool, true, ◌&&◌, ◌||◌, List, [], ◌∷◌, ◌++◌, ◌==◌,
  arith, Bool-cases, inl, inr,
}
use hotel_reviews_microservi.Auth.Roles.{
  Permission, RoleTables, any, join_users, join_roles, join_permissions, get_user_permissions,
  is_for, find_permission, check_permission,
}

find_permission-append :
    (resource action : ℕ) (ps qs : List Permission)
    → find_permission resource action (ps ++ qs)
      ≡ (find_permission resource action ps || find_permission resource action qs)
unfolding find_permission
find_permission-append resource action [] qs = refl
find_permission-append resource action (p ∷ ps) qs =
    ground (arith, find_permission-append resource action ps qs)

-- A row of the users' roles that gives the role to the user.
abbrev pub gives : ℕ → ℕ → ℕ × ℕ → Bool
gives user role ur = ur.1 == role && ur.0 == user

-- A row of the roles' permissions that gives the permission to a role of the user.
abbrev pub grants : ℕ → ℕ → List (ℕ × ℕ) → ℕ × ℕ → Bool
grants user permission user_roles rp = rp.1 == permission && any (gives user rp.0) user_roles

-- A permission that allows the action to the user.
abbrev pub allows : ℕ → ℕ → ℕ → RoleTables → Permission → Bool
allows user resource action db p =
    p.is_active
    && is_for resource action p
    && any (grants user p.id db.user_roles) db.role_permissions

module _ (user resource action : ℕ) where
  join_users_lem :
      (p : Permission) (role : ℕ) (user_roles : List (ℕ × ℕ))
      → find_permission resource action (join_users user p role user_roles)
        ≡ is_for resource action p && any (gives user role) user_roles
  unfolding join_users find_permission
  join_users_lem p role [] = ground arith
  join_users_lem p role (ur ∷ user_roles) = ground (arith, join_users_lem p role user_roles)

  join_roles_lem :
      (p : Permission) (role_permissions user_roles : List (ℕ × ℕ))
      → find_permission resource action (join_roles user p role_permissions user_roles)
        ≡ is_for resource action p && any (grants user p.id user_roles) role_permissions
  unfolding join_roles
  join_roles_lem p [] user_roles = unfold find_permission in ground arith
  join_roles_lem p (rp ∷ role_permissions) user_roles = ground (
    arith,
    join_roles_lem p role_permissions user_roles,
    join_users_lem p rp.0 user_roles,
    find_permission-append resource action (join_users user p rp.0 user_roles)
        (join_roles user p role_permissions user_roles),
  )

  join_permissions_lem :
      (db : RoleTables) (permissions : List Permission)
      → find_permission resource action
          (join_permissions user permissions db.role_permissions db.user_roles)
        ≡ any (allows user resource action db) permissions
  unfolding join_permissions
  join_permissions_lem db [] = unfold find_permission in refl
  join_permissions_lem db (p ∷ permissions) = ground (
    arith,
    join_permissions_lem db permissions,
    join_roles_lem p db.role_permissions db.user_roles,
    find_permission-append resource action (join_roles user p db.role_permissions db.user_roles)
        (join_permissions user permissions db.role_permissions db.user_roles),
  )

abbrev pub Member : {A : Type 0} → A → List A → Type 0
Member a [] = ⊥
Member a (x ∷ xs) = (a ≡ x) ⊎ Member a xs

any-Member :
    {A : Type 0} (test : A → Bool) (xs : List A)
    → any test xs ≡ true
    → (x : A) × Member x xs × (test x ≡ true)
any-Member test [] h = cc
any-Member test (x ∷ xs) h = elim (Bool-cases (test x)) [
  | inl hit ↦ (x, inl refl, hit)
  | inr miss ↦ let (y, m, t) = any-Member test xs (ground (arith, miss, h)) in (y, inr m, t)
]

Member-any :
    {A : Type 0} (test : A → Bool) (a : A) (xs : List A)
    → Member a xs
    → test a ≡ true
    → any test xs ≡ true
Member-any test a [] m t = absurd m
Member-any test a (x ∷ xs) (inl e) t = ground (arith, ap test e, t)
Member-any test a (x ∷ xs) (inr m) t = ground (arith, Member-any test a xs m t)

-- The user has a role that has an active permission for the action on the resource.
pub record IsAllowed (user resource action : ℕ) (db : RoleTables) : Type 0 where
  pub permission : Permission
  pub role : ℕ
  pub listed : Member permission db.permissions
  pub active : permission.is_active ≡ true
  pub on_resource : permission.resource ≡ resource
  pub for_action : permission.action ≡ action
  pub granted : Member (role, permission.id) db.role_permissions
  pub given : Member (user, role) db.user_roles

pair-eq : (x : ℕ × ℕ) (a b : ℕ) → x.0 ≡ a → x.1 ≡ b → x ≡ (a, b)
pair-eq x a b h k = ground (arith, h, k)

module _ (user resource action : ℕ) (db : RoleTables) where
  -- What the joins come down to.
  check_permission-any :
      check_permission user resource action db ≡ any (allows user resource action db) db.permissions
  unfolding check_permission get_user_permissions
  check_permission-any = join_permissions_lem user resource action db db.permissions

  allowed_by :
      (p : Permission) (rp ur : ℕ × ℕ)
      → Member p db.permissions
      → allows user resource action db p ≡ true
      → Member rp db.role_permissions
      → grants user p.id db.user_roles rp ≡ true
      → Member ur db.user_roles
      → gives user rp.0 ur ≡ true
      → IsAllowed user resource action db
  allowed_by p rp ur listed ok_p granted ok_rp given ok_ur = record {
    permission = p;
    role = rp.0;
    listed = listed;
    active = ground (arith, ok_p);
    on_resource = ground (arith, ok_p);
    for_action = ground (arith, ok_p);
    granted =
        subst (λ x. Member x db.role_permissions)
          (pair-eq rp rp.0 p.id refl (ground (arith, ok_rp))) granted;
    given =
        subst (λ x. Member x db.user_roles)
          (pair-eq ur user rp.0 (ground (arith, ok_ur)) (ground (arith, ok_ur))) given;
  }

  allowed : check_permission user resource action db ≡ true → IsAllowed user resource action db
  allowed h =
      let (p, listed, ok_p) =
        any-Member (allows user resource action db) db.permissions (sym check_permission-any ∙ h) in
      let (rp, granted, ok_rp) =
        any-Member (grants user p.id db.user_roles) db.role_permissions (ground (arith, ok_p)) in
      let (ur, given, ok_ur) = any-Member (gives user rp.0) db.user_roles (ground (arith, ok_rp)) in
      allowed_by p rp ur listed ok_p granted ok_rp given ok_ur

  allows_permission :
      (g : IsAllowed user resource action db) → allows user resource action db g.permission ≡ true
  allows_permission g =
      let roles : any (gives user g.role) db.user_roles ≡ true =
        Member-any (gives user g.role) (user, g.role) db.user_roles g.given (ground arith) in
      let rows : any (grants user g.permission.id db.user_roles) db.role_permissions ≡ true =
        Member-any (grants user g.permission.id db.user_roles) (g.role, g.permission.id)
          db.role_permissions g.granted (ground (arith, roles)) in
      ground (arith, rows, g.active, g.on_resource, g.for_action)

  -- `CheckPermission` allows an action on a resource to a user exactly when the user has a role that has an active
  -- permission for it.
  pub check_permission_iff :
      (check_permission user resource action db ≡ true) ↔ IsAllowed user resource action db
  check_permission_iff = (
    allowed,
    λ g.
        check_permission-any
        ∙ Member-any (allows user resource action db) g.permission db.permissions g.listed
            (allows_permission g),
  )
