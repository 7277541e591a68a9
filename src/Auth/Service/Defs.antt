-- ===== src/Auth/Service/Defs.antt =====
-- internal/auth/service.go: the state of the service and the management of users.
use Prim.Native.String.{len}
use cam_server.Base.{
  ℕ, Bool, true, false, none, some, String, List, [], ◌∷◌, ltb, map, str_eq, Result, ok, err, ◌>>=◌,
  if◌then◌else◌,
}
use cam_server.Auth.Model.{
  RoleModel, User, AuthError, invalid_credentials, user_not_found, user_already_exists,
  role_not_found, internal,
}
use cam_server.Auth.Rbac.{
  RbacStore, get_role_by_name, assign_role_to_user, remove_role_from_user, user_roles,
}
use cam_server.Auth.Store.{Store, add_user, get_by_username, get_by_id, list_users}
use cam_server.Auth.Store

pub record Service : Type 0 where
  pub store : Store
  pub rbac : RbacStore

-- `UserDetail`
pub record UserDetail : Type 0 where
  pub user_id : String
  pub username : String
  pub roles : List String
  pub is_active : Bool
  pub created_at : ℕ
  pub updated_at : ℕ

-- `CreateUserRequest`
pub record CreateUserRequest : Type 0 where
  pub username : String
  pub password : String
  pub roles : List String

-- What one call gets from outside: the time, the new identifier or the error of `uuid.NewV7`, and
-- `bcrypt.GenerateFromPassword`.
pub record Env : Type 0 where
  pub now : ℕ
  pub new_id : Result String String
  pub hash_password : String → Result String String

-- `resolveRoles`
unfoldable pub resolve_roles : List String → RbacStore → Result AuthError (List RoleModel)
resolve_roles [] rbac = ok []
resolve_roles (name ∷ names) rbac = elim (get_role_by_name name rbac) [
  | none ↦ err (role_not_found name)
  | some r ↦ do rest ← resolve_roles names rbac; ok (r ∷ rest)
]

-- `userDetail`
unfoldable pub user_detail : User → RbacStore → UserDetail
user_detail u rbac = record {
  user_id = u.user_id;
  username = u.username;
  roles = map (λ r. r.name) (user_roles u.user_id rbac);
  is_active = u.is_active;
  created_at = u.created_at;
  updated_at = u.updated_at;
}

-- The loop that assigns roles one by one; an error leaves the roles that were assigned before it.
unfoldable pub assign_roles : String → List RoleModel → RbacStore → RbacStore × Bool
assign_roles user_id [] rbac = (rbac, true)
assign_roles user_id (r ∷ rs) rbac = elim (assign_role_to_user user_id r.role_id rbac) [
  | err _ ↦ (rbac, false)
  | ok rbac' ↦ assign_roles user_id rs rbac'
]

-- The loop that removes the roles that the user has.
unfoldable pub remove_roles : String → List RoleModel → RbacStore → RbacStore
remove_roles user_id [] rbac = rbac
remove_roles user_id (r ∷ rs) rbac =
    remove_roles user_id rs (remove_role_from_user user_id r.role_id rbac)

abbrev pub default_roles : List String → List String
default_roles [] = "operator" ∷ []
default_roles (name ∷ names) = name ∷ names

-- The end of `CreateUser`: the user is stored, and its roles are assigned.
unfoldable pub store_user : User → List RoleModel → Service → Service × Result AuthError UserDetail
store_user u roles s = elim (add_user u s.store) [
  | none ↦ (s, err user_already_exists)
  | some store' ↦
      let (rbac', done) = assign_roles u.user_id roles s.rbac in
      let s' : Service = record { store = store'; rbac = rbac' } in
      if done then (s', ok (user_detail u rbac')) else (s', err (internal "assign role"))
]

abbrev pub new_user : Env → String → String → String → User
new_user env user_id username hash = record {
  user_id = user_id;
  username = username;
  password_hash = hash;
  created_at = env.now;
  updated_at = env.now;
  is_active = true;
}

-- `CreateUser` after its checks.
unfoldable pub create_checked :
    Env → CreateUserRequest → List RoleModel → Service → Service × Result AuthError UserDetail
create_checked env req roles s = elim (env.hash_password req.password) [
  | err e ↦ (s, err (internal e))
  | ok hash ↦ elim env.new_id [
    | err e ↦ (s, err (internal e))
    | ok user_id ↦ store_user (new_user env user_id req.username hash) roles s
  ]
]

-- `CreateUser`
unfoldable pub create_user :
    Env → CreateUserRequest → Service → Service × Result AuthError UserDetail
create_user env req s =
    if str_eq req.username ""
    then (s, err invalid_credentials)
    else if ltb (len req.password) 8
    then (s, err invalid_credentials)
    else elim (get_by_username req.username s.store) [
      | some _ ↦ (s, err user_already_exists)
      | none ↦ elim (resolve_roles (default_roles req.roles) s.rbac) [
        | err e ↦ (s, err e)
        | ok roles ↦ create_checked env req roles s
      ]
    ]

-- `GetUser`
unfoldable pub get_user : String → Service → Result AuthError UserDetail
get_user user_id s = elim (get_by_id user_id s.store) [
  | none ↦ err user_not_found
  | some u ↦ ok (user_detail u s.rbac)
]

-- `ListAllUsers`
unfoldable pub list_all_users : Service → List UserDetail
list_all_users s = map (λ u. user_detail u s.rbac) (list_users s.store)

-- `DeleteUser`; the roles go first, whether or not the user exists.
unfoldable pub delete_user : String → Service → Service × Result AuthError Unit
delete_user user_id s =
    let rbac' = remove_roles user_id (user_roles user_id s.rbac) s.rbac in
    let (store', found) = Store.delete_user user_id s.store in
    (record { store = store'; rbac = rbac' }, if found then ok tt else err user_not_found)

-- `UpdateUserRoles`
unfoldable pub update_user_roles :
    String → List String → Service → Service × Result AuthError UserDetail
update_user_roles user_id names s = elim (get_by_id user_id s.store) [
  | none ↦ (s, err user_not_found)
  | some u ↦ elim (resolve_roles names s.rbac) [
    | err e ↦ (s, err e)
    | ok new_roles ↦
        let cleared = remove_roles user_id (user_roles user_id s.rbac) s.rbac in
        let (rbac', done) = assign_roles user_id new_roles cleared in
        let s' : Service = record s { rbac = rbac' } in
        if done then (s', ok (user_detail u rbac')) else (s', err (internal "assign role"))
  ]
]
