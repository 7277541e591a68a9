-- ===== src/Auth/Rbac/Permissions.antt =====
-- What `UserHasPermission` decides, and that `GetSessionInfo` lists exactly that.
use cam_server.Base.{
  ◌≡◌, ◌↔◌, Bool, true, some, String, [], ◌∷◌, inl, inr, arith, eq_iff, str_eq, lookup, Bool-cases,
  if◌then◌else◌, GoMap, GoSet, contains, set_at,
}
use cam_server.Auth.Model.{RoleModel}
use cam_server.Auth.Rbac.{RbacStore, any_role_has, user_has_permission}
use cam_server.Auth.Rbac.Soundness.{IsSound}

any_role_has_sound :
    (role_perms : GoMap GoSet) (perm : String) (set : GoSet)
    → any_role_has role_perms perm set ≡ true
    → (rid : String) × (b : Bool) × (lookup rid set ≡ some b)
      × (contains perm (set_at rid role_perms) ≡ true)
unfolding any_role_has lookup
any_role_has_sound role_perms perm [] h = cc
any_role_has_sound role_perms perm ((k, v) ∷ set) h =
    elim (Bool-cases (contains perm (set_at k role_perms))) [
      | inl yes_here ↦ (k, v, ground (arith, eq_iff k k), yes_here)
      | inr not_here ↦
          let (rid, b, found, has) = any_role_has_sound role_perms perm set (ground arith) in
          (rid, (if str_eq k rid then v else b), ground arith, has)
    ]

any_role_has_complete :
    (role_perms : GoMap GoSet) (perm rid : String) (b : Bool) (set : GoSet)
    → lookup rid set ≡ some b
    → contains perm (set_at rid role_perms) ≡ true
    → any_role_has role_perms perm set ≡ true
unfolding any_role_has lookup
any_role_has_complete role_perms perm rid b [] found has = cc
any_role_has_complete role_perms perm rid b ((k, v) ∷ set) found has =
    ground (arith, eq_iff k rid, any_role_has_complete role_perms perm rid b set)

-- In a sound store a user has a permission exactly if some role that is assigned to the user, and
-- exists, has the permission.
pub user_has_permission_iff :
    (user_id perm : String) (s : RbacStore)
    → IsSound s
    → (user_has_permission user_id perm s ≡ true) ↔ (
        (rid : String) × (contains rid (set_at user_id s.user_roles) ≡ true)
        × ((r : RoleModel) × (lookup rid s.roles ≡ some r))
        × (contains perm (set_at rid s.role_perms) ≡ true))
unfolding user_has_permission contains
user_has_permission_iff user_id perm s h = (
  λ has.
      let (rid, b, found, holds) =
        any_role_has_sound s.role_perms perm (set_at user_id s.user_roles) has in
      let (is_true, role) = h.assigned user_id rid b found in (rid, ground arith, role, holds),
  λ w.
      any_role_has_complete s.role_perms perm w.0 true (set_at user_id s.user_roles) (ground arith)
        w.3,
)
