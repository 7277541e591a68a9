-- ===== src/Auth/Service/Resolved.antt =====
-- The roles that `resolveRoles` of internal/auth/service.go finds.
use cam_server.Base.{
  ◌≡◌, refl, true, none, some, String, List, [], ◌∷◌, inl, inr, ◌⊎◌, arith, eq_iff, lookup,
  Option-cases, ok, err, elem,
}
use cam_server.Auth.Model.{RoleModel, AuthError, role_not_found}
use cam_server.Auth.Rbac.{RbacStore, get_role_by_name}
use cam_server.Auth.Service.Defs.{resolve_roles}

-- The roles are those that stand under the names, one for each name and in their order.
abbrev pub Named : RbacStore → List String → List RoleModel → Type 0
Named s [] [] = Unit
Named s (n ∷ names) (r ∷ rs) = (lookup n s.roles_by_name ≡ some r) × Named s names rs
Named s (n ∷ names) [] = ⊥
Named s [] (r ∷ rs) = ⊥

-- A name of the list that no role has.
abbrev pub Unknown : RbacStore → List String → Type 0
Unknown s names = (n : String) × (elem n names ≡ true) × (lookup n s.roles_by_name ≡ none)

-- `resolveRoles` fails exactly with a name that no role has; otherwise it gives the role of each name.
pub resolve_roles_lem :
    (names : List String) (s : RbacStore)
    → ((e : AuthError) × (resolve_roles names s ≡ err e) × Unknown s names)
      ⊎ ((rs : List RoleModel) × (resolve_roles names s ≡ ok rs) × Named s names rs)
unfolding resolve_roles get_role_by_name
resolve_roles_lem [] s = inr ([], refl, tt)
resolve_roles_lem (n ∷ names) s = elim (Option-cases (lookup n s.roles_by_name)) [
  | inl missing ↦
      inl (role_not_found n, ground (arith, missing), (n, ground (arith, eq_iff n n), missing))
  | inr (r, found) ↦ elim (resolve_roles_lem names s) [
    | inl (e, bad, (m, is_in, missing)) ↦
        inl (e, ground (arith, found, bad), (m, ground (arith, is_in), missing))
    | inr (rs, good, named) ↦ inr (r ∷ rs, ground (arith, found, good), (found, named))
  ]
]
