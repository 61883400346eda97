-- ===== src/Auth/Roles/Examples.antt =====
-- The permissions at concrete tables.
use hotel_reviews_microservi.Base.{◌≡◌, ◌↔◌, refl, true, false, [], ◌∷◌}
use hotel_reviews_microservi.Auth.Roles.{
  RoleTables, check_permission, get_user_permissions, assign_role_to_user, remove_role_from_user,
  remove_permission_from_role,
}
use hotel_reviews_microservi.Auth.Roles.Granted.{IsAllowed, check_permission_iff}

-- The role 7 may do 3 on 2, by the permission 5.
abbrev tables : RoleTables
tables = record {
  permissions = record { id = 5; resource = 2; action = 3; is_active = true } ∷ [];
  role_permissions = (7, 5) ∷ [];
  user_roles = [];
}

assigned : check_permission 1 2 3 (assign_role_to_user 1 7 tables) ≡ true
unfolding assign_role_to_user check_permission get_user_permissions
assigned = refl

removed :
    check_permission 1 2 3 (remove_role_from_user 1 7 (assign_role_to_user 1 7 tables)) ≡ false
unfolding assign_role_to_user remove_role_from_user check_permission get_user_permissions
removed = refl

withdrawn :
    check_permission 1 2 3 (remove_permission_from_role 7 5 (assign_role_to_user 1 7 tables))
    ≡ false
unfolding assign_role_to_user remove_permission_from_role check_permission get_user_permissions
withdrawn = refl

check_permission_iff_example :
    (check_permission 1 2 3 (assign_role_to_user 1 7 tables) ≡ true)
    ↔ IsAllowed 1 2 3 (assign_role_to_user 1 7 tables)
check_permission_iff_example = check_permission_iff 1 2 3 (assign_role_to_user 1 7 tables)
