-- ===== src/Auth/Service/Seed.antt =====
-- internal/auth/service.go: the permissions, the roles and the administrator that the server starts with.
use cam_server.Base.{
  ℕ, suc, ◌≡◌, ◌≢◌, refl, Option, none, some, String, List, [], ◌∷◌, str_eq, Result, ok, err, arith,
  All, if◌then◌else◌,
}
use cam_server.Auth.Model.{AuthError, internal, user_already_exists}
use cam_server.Auth.Rbac.{
  RbacStore, save_permission, get_permission_by_name, save_role, get_role_by_name,
  assign_permission_to_role, assign_role_to_user,
}
use cam_server.Auth.Service.Defs.{Service, Env, new_user}
use cam_server.Auth.Store.{add_user, get_by_username}

-- The new identifiers of a call, by their number.
abbrev pub Ids : Type 0
Ids = ℕ → Result String String

-- `permSeeds`
abbrev pub perm_seeds : List (String × String)
perm_seeds =
    ("camera:view", "View camera feeds and live sessions")
    ∷ ("camera:manage", "Create, update, and delete cameras")
    ∷ ("relay:manage", "Manage relay sessions")
    ∷ ("user:manage", "Create, update, and delete users")
    ∷ []

-- `roleSeed`
pub record RoleSeed : Type 0 where
  pub name : String
  pub desc : String
  pub permissions : List String

-- `roleSeeds`
abbrev pub role_seeds : List RoleSeed
role_seeds =
    record {
      name = "admin";
      desc = "Full system access";
      permissions = "camera:view" ∷ "camera:manage" ∷ "relay:manage" ∷ "user:manage" ∷ [];
    }
    ∷ record { name = "operator"; desc = "Camera viewing access"; permissions = "camera:view" ∷ [] }
    ∷ []

-- The loop over the permissions, from the `n`-th identifier on. An error leaves what was saved before it.
unfoldable pub seed_permissions :
    ℕ → Ids → ℕ → List (String × String) → RbacStore → RbacStore × Option AuthError × ℕ
seed_permissions now ids n [] rbac = (rbac, none, n)
seed_permissions now ids n ((name, desc) ∷ seeds) rbac = elim (get_permission_by_name name rbac) [
  | some _ ↦ seed_permissions now ids n seeds rbac
  | none ↦ elim (ids n) [
    | err e ↦ (rbac, some (internal e), n)
    | ok id ↦ seed_permissions now ids (suc n) seeds (
        save_permission
          (record { permission_id = id; name = name; description = desc; created_at = now }) rbac)
  ]
]

-- The loop over the permissions of a role.
unfoldable pub assign_permissions : String → List String → RbacStore → RbacStore × Option AuthError
assign_permissions role_id [] rbac = (rbac, none)
assign_permissions role_id (name ∷ names) rbac = elim (get_permission_by_name name rbac) [
  | none ↦ (rbac, some (internal name))
  | some p ↦ elim (assign_permission_to_role role_id p.permission_id rbac) [
    | err _ ↦ (rbac, some (internal name))
    | ok rbac' ↦ assign_permissions role_id names rbac'
  ]
]

abbrev go_on :
    (RbacStore → RbacStore × Option AuthError)
    → RbacStore × Option AuthError
    → RbacStore × Option AuthError
go_on rest (rbac, none) = rest rbac
go_on rest (rbac, some e) = (rbac, some e)

-- The loop over the roles.
unfoldable pub seed_roles : ℕ → Ids → ℕ → List RoleSeed → RbacStore → RbacStore × Option AuthError
seed_roles now ids n [] rbac = (rbac, none)
seed_roles now ids n (seed ∷ seeds) rbac = elim (get_role_by_name seed.name rbac) [
  | some _ ↦ seed_roles now ids n seeds rbac
  | none ↦ elim (ids n) [
    | err e ↦ (rbac, some (internal e))
    | ok id ↦ go_on (seed_roles now ids (suc n) seeds) (
        assign_permissions id seed.permissions (
          save_role
            (record { role_id = id; name = seed.name; description = seed.desc; created_at = now })
            rbac))
  ]
]

-- `SeedRBAC`
unfoldable pub seed_rbac : ℕ → Ids → RbacStore → RbacStore × Option AuthError
seed_rbac now ids rbac =
    let (rbac', failed, n) = seed_permissions now ids 0 perm_seeds rbac in
    elim failed [ some e ↦ (rbac', some e) | none ↦ seed_roles now ids n role_seeds rbac' ]

-- `SeedAdmin`, with the password that it generates where none is given.
unfoldable pub seed_admin :
    Env → String → String → String → Service → Service × Result AuthError String
seed_admin env generated username given s = elim (get_by_username username s.store) [
  | some _ ↦ (s, ok "")
  | none ↦
      let password = if str_eq given "" then generated else given in
      elim (env.hash_password password) [
        | err e ↦ (s, err (internal e))
        | ok hash ↦ elim env.new_id [
          | err e ↦ (s, err (internal e))
          | ok user_id ↦ elim (add_user (new_user env user_id username hash) s.store) [
            | none ↦ (s, err user_already_exists)
            | some store' ↦
                let s' : Service = record s { store = store' } in
                elim (get_role_by_name "admin" s.rbac) [
                  | none ↦ (s', err (internal "admin role not found"))
                  | some r ↦ elim (assign_role_to_user user_id r.role_id s.rbac) [
                    | err _ ↦ (s', err (internal "assign admin role"))
                    | ok rbac' ↦ (record s' { rbac = rbac' }, ok password)
                  ]
                ]
          ]
        ]
      ]
]

abbrev pub HasPermissions : List (String × String) → RbacStore → Type 0
HasPermissions seeds rbac =
    All (λ (p : String × String). get_permission_by_name p.0 rbac ≢ none) seeds

abbrev pub HasRoles : List RoleSeed → RbacStore → Type 0
HasRoles seeds rbac = All (λ (r : RoleSeed). get_role_by_name r.name rbac ≢ none) seeds

seed_permissions_again :
    (now : ℕ) (ids : Ids) (n : ℕ) (seeds : List (String × String)) (rbac : RbacStore)
    → HasPermissions seeds rbac
    → seed_permissions now ids n seeds rbac ≡ (rbac, none, n)
unfolding seed_permissions
seed_permissions_again now ids n [] rbac h = refl
seed_permissions_again now ids n ((name, desc) ∷ seeds) rbac (h, hs) =
    ground (arith, h, seed_permissions_again now ids n seeds rbac hs)

seed_roles_again :
    (now : ℕ) (ids : Ids) (n : ℕ) (seeds : List RoleSeed) (rbac : RbacStore)
    → HasRoles seeds rbac
    → seed_roles now ids n seeds rbac ≡ (rbac, none)
unfolding seed_roles
seed_roles_again now ids n [] rbac h = refl
seed_roles_again now ids n (seed ∷ seeds) rbac (h, hs) =
    ground (arith, h, seed_roles_again now ids n seeds rbac hs)

-- Where the permissions and the roles are there by name, `SeedRBAC` changes nothing and succeeds.
pub seed_rbac_again :
    (now : ℕ) (ids : Ids) (rbac : RbacStore)
    → HasPermissions perm_seeds rbac
    → HasRoles role_seeds rbac
    → seed_rbac now ids rbac ≡ (rbac, none)
unfolding seed_rbac
seed_rbac_again now ids rbac perms roles = ground (
  arith,
  seed_permissions_again now ids 0 perm_seeds rbac perms,
  seed_roles_again now ids 0 role_seeds rbac roles,
)
