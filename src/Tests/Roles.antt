-- ===== src/Tests/Roles.antt =====
-- A store with the roles "admin" and "viewer" and one permission: internal/auth/rbac_store.go and
-- the management of roles in internal/auth/service.go.
use cam_server.Base.{
  ◌≡◌, refl, true, false, none, some, String, List, [], ◌∷◌, ◌⊎◌, ok, err, lookup, insert, delete,
  set_at, add_to, elem, str_eq, if◌then◌else◌,
}
use cam_server.Auth.Model.{Permission, RoleModel, User, AuthError, user_not_found, SessionToken}
use cam_server.Auth.Rbac.{
  RbacStore, new_rbac, save_permission, save_role, assign_permission_to_role, assign_role_to_user,
  user_has_permission,
}
use cam_server.Auth.Rbac.Soundness.{
  IsSound, new_rbac-IsSound, save_permission-IsSound, save_role-IsSound,
  assign_permission_to_role-IsSound, assign_role_to_user-IsSound,
}
use cam_server.Auth.Service.Defs.{Service, UserDetail, update_user_roles, delete_user}
use cam_server.Auth.Service.Info.{permissions-get_session_info}
use cam_server.Auth.Service.Resolved.{Named, Unknown}
use cam_server.Auth.Service.Roles.{has_role, role_ids, update_user_roles_lem, has_role-delete_user}
use cam_server.Auth.Service.Sessions.{get_session_info}
use cam_server.Auth.Store.{get_by_id}

abbrev watch : Permission
watch = record {
  permission_id = "p1";
  name = "stream:view";
  description = "View live streams";
  created_at = 0;
}

abbrev admin : RoleModel
admin = record { role_id = "r1"; name = "admin"; description = "Full access"; created_at = 0 }

abbrev viewer : RoleModel
viewer = record {
  role_id = "r2";
  name = "viewer";
  description = "Read-only access";
  created_at = 0;
}

abbrev seeded : RbacStore
seeded = save_role viewer (save_role admin (save_permission watch new_rbac))

seeded-IsSound : IsSound seeded
seeded-IsSound =
    save_role-IsSound viewer _
      (save_role-IsSound admin _ (save_permission-IsSound watch _ new_rbac-IsSound))

abbrev granted : RbacStore
granted = record seeded { role_perms = ("r2", ("stream:view", true) ∷ []) ∷ [] }

granting : assign_permission_to_role "r2" "p1" seeded ≡ ok granted
unfolding assign_permission_to_role save_role save_permission insert lookup delete add_to set_at
granting = refl

abbrev assigned : RbacStore
assigned = record granted { user_roles = ("u1", ("r2", true) ∷ []) ∷ [] }

assigning : assign_role_to_user "u1" "r2" granted ≡ ok assigned
unfolding assign_role_to_user save_role save_permission insert lookup delete add_to set_at
assigning = refl

assigned-IsSound : IsSound assigned
assigned-IsSound =
    assign_role_to_user-IsSound "u1" "r2" granted assigned
      (assign_permission_to_role-IsSound "r2" "p1" seeded granted seeded-IsSound granting) assigning

abbrev bob : User
bob = record {
  user_id = "u1";
  username = "bob";
  password_hash = "hash";
  created_at = 0;
  updated_at = 0;
  is_active = true;
}

abbrev service : Service
service = record {
  store = record { users = ("bob", bob) ∷ []; by_id = ("u1", bob) ∷ []; tokens = [] };
  rbac = assigned;
}

abbrev session : SessionToken
session = record {
  token_id = "t1";
  user_id = "u1";
  role_names = "viewer" ∷ [];
  issued_at = 0;
  expires_at = 9;
  invalidated_at = none;
}

permissions-get_session_info_example :
    elem "stream:view" (get_session_info session bob service).permissions
    ≡ user_has_permission "u1" "stream:view" assigned
permissions-get_session_info_example =
    permissions-get_session_info session bob service "stream:view" assigned-IsSound

update_user_roles_lem_example :
    ((e : AuthError) × (update_user_roles "u1" ("admin" ∷ []) service ≡ (service, err e))
      × ((get_by_id "u1" service.store ≡ none) ⊎ Unknown service.rbac ("admin" ∷ [])))
    ⊎ ((u : User) × (rs : List RoleModel) × (s' : Service) × (d : UserDetail) × (get_by_id "u1"
            service.store
          ≡ some u)
        × Named service.rbac ("admin" ∷ []) rs
        × (update_user_roles "u1" ("admin" ∷ []) service ≡ (s', ok d))
        × (s'.store ≡ service.store)
        × IsSound s'.rbac
        × ((v rid : String)
            → has_role s'.rbac v rid
              ≡ (if str_eq "u1" v then elem rid (role_ids rs) else has_role service.rbac v rid)))
update_user_roles_lem_example = update_user_roles_lem "u1" ("admin" ∷ []) service assigned-IsSound

has_role-delete_user_example :
    ((v rid : String)
      → has_role (delete_user "u1" service).0.rbac v rid
        ≡ (if str_eq "u1" v then false else has_role service.rbac v rid))
    × (((get_by_id "u1" service.store ≡ none)
          × ((delete_user "u1" service).1 ≡ err user_not_found)
          × ((delete_user "u1" service).0.store ≡ service.store))
        ⊎ ((u : User) × (get_by_id "u1" service.store ≡ some u)
            × ((delete_user "u1" service).1 ≡ ok tt)
            × (get_by_id "u1" (delete_user "u1" service).0.store ≡ none)))
has_role-delete_user_example = has_role-delete_user "u1" service assigned-IsSound
