-- ===== src/Auth/Rbac.antt =====
-- internal/auth/rbac_store.go: the in-memory store of permissions, roles and their assignments. No
-- operation of this store returns an error after it has changed something.

pub mod Soundness
pub mod Permissions
use cam_server.Base.{
  ℕ, Bool, true, false, Option, none, some, String, List, [], ◌∷◌, GoMap, GoSet, lookup, insert,
  values, contains, set_at, add_to, remove_from, Result, ok, err, keys, if◌then◌else◌,
}
use cam_server.Auth.Model.{Permission, RoleModel}

pub record RbacStore : Type 0 where
  pub permissions : GoMap Permission
  pub perms_by_name : GoMap Permission
  pub roles : GoMap RoleModel
  pub roles_by_name : GoMap RoleModel
  pub role_perms : GoMap GoSet
  pub user_roles : GoMap GoSet

pub data RbacError : Type 0 where
  no_permission : String → RbacError
  no_role : String → RbacError

-- `NewInMemRBACStore`
abbrev pub new_rbac : RbacStore
new_rbac = record {
  permissions = [];
  perms_by_name = [];
  roles = [];
  roles_by_name = [];
  role_perms = [];
  user_roles = [];
}

unfoldable pub save_permission : Permission → RbacStore → RbacStore
save_permission p s = record s {
  permissions = insert p.permission_id p s.permissions;
  perms_by_name = insert p.name p s.perms_by_name;
}

unfoldable pub get_permission_by_name : String → RbacStore → Option Permission
get_permission_by_name name s = lookup name s.perms_by_name

unfoldable pub list_permissions : RbacStore → List Permission
list_permissions s = values s.permissions

unfoldable pub save_role : RoleModel → RbacStore → RbacStore
save_role r s = record s {
  roles = insert r.role_id r s.roles;
  roles_by_name = insert r.name r s.roles_by_name;
}

unfoldable pub get_role_by_name : String → RbacStore → Option RoleModel
get_role_by_name name s = lookup name s.roles_by_name

unfoldable pub list_roles : RbacStore → List RoleModel
list_roles s = values s.roles

unfoldable pub assign_permission_to_role : String → String → RbacStore → Result RbacError RbacStore
assign_permission_to_role role_id perm_id s = elim (lookup perm_id s.permissions) [
  | none ↦ err (no_permission perm_id)
  | some perm ↦ elim (lookup role_id s.roles) [
    | none ↦ err (no_role role_id)
    | some _ ↦ ok (record s { role_perms = add_to role_id perm.name s.role_perms })
  ]
]

unfoldable pub role_permission_names : String → RbacStore → List String
role_permission_names role_id s = keys (set_at role_id s.role_perms)

unfoldable pub assign_role_to_user : String → String → RbacStore → Result RbacError RbacStore
assign_role_to_user user_id role_id s = elim (lookup role_id s.roles) [
  | none ↦ err (no_role role_id)
  | some _ ↦ ok (record s { user_roles = add_to user_id role_id s.user_roles })
]

unfoldable pub remove_role_from_user : String → String → RbacStore → RbacStore
remove_role_from_user user_id role_id s = record s {
  user_roles = remove_from user_id role_id s.user_roles;
}

-- The loop of `UserRoles`.
unfoldable pub roles_of : GoMap RoleModel → GoSet → List RoleModel
roles_of roles [] = []
roles_of roles ((rid, b) ∷ rest) = elim (lookup rid roles) [
  | none ↦ roles_of roles rest
  | some r ↦ r ∷ roles_of roles rest
]

unfoldable pub user_roles : String → RbacStore → List RoleModel
unfolding roles_of
user_roles user_id s = roles_of s.roles (set_at user_id s.user_roles)

-- The loop of `UserHasPermission`, with its early return.
unfoldable pub any_role_has : GoMap GoSet → String → GoSet → Bool
any_role_has role_perms perm [] = false
any_role_has role_perms perm ((rid, b) ∷ rest) =
    if contains perm (set_at rid role_perms) then true else any_role_has role_perms perm rest

unfoldable pub user_has_permission : String → String → RbacStore → Bool
unfolding any_role_has
user_has_permission user_id perm s = any_role_has s.role_perms perm (set_at user_id s.user_roles)

-- The inner loop of `WarmFrom`: the permissions of one role, by name.
unfoldable pub warm_names : String → List String → RbacStore → RbacStore
warm_names role_id [] s = s
warm_names role_id (name ∷ names) s = elim (get_permission_by_name name s) [
  | none ↦ warm_names role_id names s
  | some p ↦ elim (assign_permission_to_role role_id p.permission_id s) [
    | ok s' ↦ warm_names role_id names s'
    | err _ ↦ warm_names role_id names s
  ]
]

unfoldable pub warm_permissions : List Permission → RbacStore → RbacStore
warm_permissions [] s = s
warm_permissions (p ∷ ps) s = warm_permissions ps (save_permission p s)

unfoldable pub warm_roles : RbacStore → List RoleModel → RbacStore → RbacStore
warm_roles src [] s = s
warm_roles src (r ∷ rs) s =
    warm_roles src rs (warm_names r.role_id (role_permission_names r.role_id src) (save_role r s))

-- `WarmFrom`, where the source is another store of this kind; saving never fails here.
unfoldable pub warm_from : RbacStore → RbacStore → RbacStore
unfolding warm_permissions warm_roles
warm_from src s = warm_roles src (list_roles src) (warm_permissions (list_permissions src) s)
