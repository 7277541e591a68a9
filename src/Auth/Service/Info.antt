-- ===== src/Auth/Service/Info.antt =====
-- The permissions that a session reports are those that the middleware grants.
use cam_server.Base.{
  ◌≡◌, refl, Bool, true, false, ◌||◌, some, String, List, [], ◌∷◌, arith, lookup, insert,
  lookup-insert, GoSet, All, contains, set_at, is_some, keys, elem, elem-keys, keys-All,
}
use cam_server.Auth.Model.{RoleModel, SessionToken, User}
use cam_server.Auth.Rbac.{
  RbacStore, any_role_has, user_has_permission, roles_of, user_roles, role_permission_names,
}
use cam_server.Auth.Rbac.Soundness.{IsSound}
use cam_server.Auth.Service.Defs.{Service}
use cam_server.Auth.Service.Sessions.{add_names, collect_permissions, get_session_info}

lookup-add_names :
    (k : String) (names : List String) (set : GoSet)
    → is_some (lookup k (add_names names set)) ≡ (elem k names || is_some (lookup k set))
unfolding add_names
lookup-add_names k [] set = refl
lookup-add_names k (n ∷ names) set =
    ground (arith, lookup-add_names k names (insert n true set), lookup-insert n k true set)

-- Some role of the list has the permission, by its identifier.
abbrev some_has : RbacStore → String → List RoleModel → Bool
some_has rbac p [] = false
some_has rbac p (r ∷ rs) = elem p (role_permission_names r.role_id rbac) || some_has rbac p rs

lookup-collect_permissions :
    (p : String) (rs : List RoleModel) (rbac : RbacStore) (set : GoSet)
    → is_some (lookup p (collect_permissions rs rbac set))
      ≡ (some_has rbac p rs || is_some (lookup p set))
unfolding collect_permissions
lookup-collect_permissions p [] rbac set = refl
lookup-collect_permissions p (r ∷ rs) rbac set = ground (
  arith,
  lookup-collect_permissions p rs rbac (add_names (role_permission_names r.role_id rbac) set),
  lookup-add_names p (role_permission_names r.role_id rbac) set,
)

-- A role that is assigned exists under its own identifier.
abbrev pub Exists : RbacStore → String → Type 0
Exists rbac rid = (r : RoleModel) × (lookup rid rbac.roles ≡ some r) × (r.role_id ≡ rid)

names-contains :
    (rbac : RbacStore) (p rid : String)
    → IsSound rbac
    → elem p (role_permission_names rid rbac) ≡ contains p (set_at rid rbac.role_perms)
unfolding role_permission_names contains
names-contains rbac p rid h =
    ground (arith, elem-keys p (set_at rid rbac.role_perms), h.granted rid p false)

some_has-any_role_has :
    (rbac : RbacStore) (p : String) (set : GoSet)
    → IsSound rbac
    → All (Exists rbac) (keys set)
    → some_has rbac p (roles_of rbac.roles set) ≡ any_role_has rbac.role_perms p set
unfolding any_role_has roles_of
some_has-any_role_has rbac p [] h all = refl
some_has-any_role_has rbac p ((rid, b) ∷ set) h ((r, found, same), all) =
    rw (found, roles_of)
      (ground (arith, names-contains rbac p rid h, some_has-any_role_has rbac p set h all))

pub existing :
    (user_id : String) (rbac : RbacStore)
    → IsSound rbac
    → (rid : String) (b : Bool) → lookup rid (set_at user_id rbac.user_roles) ≡ some b
    → Exists rbac rid
existing user_id rbac h rid b found =
    let (is_true, (r, there)) = h.assigned user_id rid b found in (r, there, h.role_key rid r there)

-- In a sound store the permissions that `GetSessionInfo` lists for a user are exactly those that
-- `UserHasPermission`, the check of the middleware, grants.
pub permissions-get_session_info :
    (sess : SessionToken) (u : User) (s : Service) (p : String)
    → IsSound s.rbac
    → elem p (get_session_info sess u s).permissions ≡ user_has_permission u.user_id p s.rbac
unfolding get_session_info user_has_permission user_roles lookup
permissions-get_session_info sess u s p h =
    let set = set_at u.user_id s.rbac.user_roles in
    let roles = roles_of s.rbac.roles set in
    ground (
      arith,
      elem-keys p (collect_permissions roles s.rbac []),
      lookup-collect_permissions p roles s.rbac [],
      some_has-any_role_has s.rbac p set h
          (keys-All (Exists s.rbac) set (existing u.user_id s.rbac h)),
    )
