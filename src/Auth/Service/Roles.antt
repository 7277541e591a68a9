-- ===== src/Auth/Service/Roles.antt =====
-- `UpdateUserRoles` and `DeleteUser` on the roles of a user.
use cam_server.Base.{
  ◌≡◌, refl, Bool, true, false, ◌&&◌, ◌||◌, none, some, String, List, [], ◌∷◌, map, inl, inr, ◌⊎◌,
  arith, eq_iff, str_eq, lookup, Option-cases, ok, err, if◌then◌else◌, GoSet, contains, set_at,
  add_to, remove_from, contains-add_to, contains-remove_from, lookup-delete_self, elem, elem-keys,
  keys, keys-All, All,
}
use cam_server.Auth.Model.{RoleModel, User, AuthError, user_not_found}
use cam_server.Auth.Rbac.{
  RbacStore, roles_of, user_roles, assign_role_to_user, remove_role_from_user,
}
use cam_server.Auth.Rbac.Soundness.{
  IsSound, assign_role_to_user-IsSound, remove_role_from_user-IsSound,
}
use cam_server.Auth.Service.Defs.{
  Service, UserDetail, resolve_roles, assign_roles, remove_roles, update_user_roles, delete_user,
  user_detail,
}
use cam_server.Auth.Service.Info.{Exists, existing}
use cam_server.Auth.Store
use cam_server.Auth.Store.{get_by_id}
use cam_server.Auth.Service.Resolved.{Named, Unknown, resolve_roles_lem}

-- Whether a role is assigned to a user.
abbrev pub has_role : RbacStore → String → String → Bool
has_role s user_id rid = contains rid (set_at user_id s.user_roles)

abbrev pub role_ids : List RoleModel → List String
role_ids rs = map (λ r. r.role_id) rs

has_role-remove_roles :
    (u v rid : String) (rs : List RoleModel) (s : RbacStore)
    → has_role (remove_roles u rs s) v rid
      ≡ (if str_eq u v && elem rid (role_ids rs) then false else has_role s v rid)
unfolding remove_roles remove_role_from_user
has_role-remove_roles u v rid [] s = ground arith
has_role-remove_roles u v rid (r ∷ rs) s = ground (
  arith,
  has_role-remove_roles u v rid rs (record s { user_roles = remove_from u r.role_id s.user_roles }),
  contains-remove_from u v r.role_id rid s.user_roles,
)

roles-remove_roles :
    (u : String) (rs : List RoleModel) (s : RbacStore) → (remove_roles u rs s).roles ≡ s.roles
unfolding remove_roles remove_role_from_user
roles-remove_roles u [] s = refl
roles-remove_roles u (r ∷ rs) s = roles-remove_roles u rs _

remove_roles-IsSound :
    (u : String) (rs : List RoleModel) (s : RbacStore) → IsSound s → IsSound (remove_roles u rs s)
unfolding remove_roles
remove_roles-IsSound u [] s h = h
remove_roles-IsSound u (r ∷ rs) s h =
    remove_roles-IsSound u rs _ (remove_role_from_user-IsSound u r.role_id s h)

-- The roles that `UserRoles` lists are those that are assigned.
elem-roles_of :
    (s : RbacStore) (rid : String) (set : GoSet)
    → All (Exists s) (keys set)
    → elem rid (role_ids (roles_of s.roles set)) ≡ elem rid (keys set)
unfolding roles_of
elem-roles_of s rid [] all = refl
elem-roles_of s rid ((k, b) ∷ set) ((r, found, same), all) =
    rw (found, roles_of) (ground (arith, elem-roles_of s rid set all))

elem-user_roles :
    (s : RbacStore) (user_id rid : String)
    → IsSound s
    → elem rid (role_ids (user_roles user_id s)) ≡ has_role s user_id rid
unfolding user_roles contains
elem-user_roles s user_id rid h =
    let set = set_at user_id s.user_roles in
    ground (
      arith,
      elem-roles_of s rid set (keys-All (Exists s) set (existing user_id s h)),
      elem-keys rid set,
      h.assigned user_id rid false,
    )

-- Removing the roles that `UserRoles` lists leaves the user with none, and other users as they were.
cleared :
    (s : RbacStore) (user_id v rid : String)
    → IsSound s
    → has_role (remove_roles user_id (user_roles user_id s) s) v rid
      ≡ (if str_eq user_id v then false else has_role s v rid)
cleared s user_id v rid h = ground (
  arith,
  has_role-remove_roles user_id v rid (user_roles user_id s) s,
  elem-user_roles s user_id rid h,
  eq_iff user_id v,
)

abbrev AllExist : RbacStore → List RoleModel → Type 0
AllExist s rs = All (λ r. (x : RoleModel) × (lookup r.role_id s.roles ≡ some x)) rs

assign_step :
    (u rid : String) (s : RbacStore) (x : RoleModel)
    → lookup rid s.roles ≡ some x
    → assign_role_to_user u rid s ≡ ok (record s { user_roles = add_to u rid s.user_roles })
unfolding assign_role_to_user
assign_step u rid s x found = rw (found, assign_role_to_user)

-- Assigning roles that exist succeeds, adds exactly these roles for this user, and keeps the store
-- sound.
assign_roles_lem :
    (u : String) (rs : List RoleModel) (s : RbacStore)
    → IsSound s
    → AllExist s rs
    → ((assign_roles u rs s).1 ≡ true)
      × IsSound (assign_roles u rs s).0
      × ((v rid : String)
          → has_role (assign_roles u rs s).0 v rid
            ≡ ((str_eq u v && elem rid (role_ids rs)) || has_role s v rid))
unfolding assign_roles
assign_roles_lem u [] s h all = (refl, h, λ v rid. ground arith)
assign_roles_lem u (r ∷ rs) s h ((x, found), all) =
    let next = record s { user_roles = add_to u r.role_id s.user_roles } in
    let (did, sound, has) =
      assign_roles_lem u rs next
        (assign_role_to_user-IsSound u r.role_id s next h (assign_step u r.role_id s x found))
        all in
    rw (assign_step u r.role_id s x found, assign_roles)
      (
        did,
        sound,
        λ v rid. ground (arith, has v rid, contains-add_to u v r.role_id rid s.user_roles),
      )

Named-AllExist :
    (names : List String) (s : RbacStore) (rs : List RoleModel)
    → IsSound s
    → Named s names rs
    → AllExist s rs
Named-AllExist [] s [] h named = tt
Named-AllExist [] s (r ∷ rs) h named = absurd named
Named-AllExist (n ∷ names) s [] h named = absurd named
Named-AllExist (n ∷ names) s (r ∷ rs) h (found, named) =
    (h.named n r found, Named-AllExist names s rs h named)

update_missing :
    (user_id : String) (names : List String) (s : Service)
    → get_by_id user_id s.store ≡ none
    → update_user_roles user_id names s ≡ (s, err user_not_found)
unfolding update_user_roles
update_missing user_id names s e = rw (e, update_user_roles)

update_unresolved :
    (user_id : String) (names : List String) (s : Service) (u : User) (x : AuthError)
    → get_by_id user_id s.store ≡ some u
    → resolve_roles names s.rbac ≡ err x
    → update_user_roles user_id names s ≡ (s, err x)
unfolding update_user_roles
update_unresolved user_id names s u x e bad = rw (e, bad, update_user_roles)

-- The assignments of roles after the user's roles are removed.
abbrev reassigned : String → List RoleModel → RbacStore → RbacStore × Bool
reassigned user_id rs rbac =
    assign_roles user_id rs (remove_roles user_id (user_roles user_id rbac) rbac)

update_resolved :
    (user_id : String) (names : List String) (s : Service) (u : User) (rs : List RoleModel)
    → get_by_id user_id s.store ≡ some u
    → resolve_roles names s.rbac ≡ ok rs
    → (reassigned user_id rs s.rbac).1 ≡ true
    → update_user_roles user_id names s ≡ (
      record s { rbac = (reassigned user_id rs s.rbac).0 },
      ok (user_detail u (reassigned user_id rs s.rbac).0),
    )
unfolding update_user_roles
update_resolved user_id names s u rs e good did = rw (e, good, update_user_roles) (rw did)

AllExist-roles :
    (s t : RbacStore) (rs : List RoleModel) → t.roles ≡ s.roles → AllExist s rs → AllExist t rs
AllExist-roles s t [] same all = tt
AllExist-roles s t (r ∷ rs) same (h, all) = (rw same h, AllExist-roles s t rs same all)

-- In a sound store `UpdateUserRoles` either fails, because the user is unknown or some name of the list
-- is that of no role, and then changes nothing; or it succeeds for a user that is known, each name of the
-- list is that of a role, and then the user has exactly these roles, every other user has the roles that it
-- had, and the store of users and tokens is unchanged.
pub update_user_roles_lem :
    (user_id : String) (names : List String) (s : Service)
    → IsSound s.rbac
    → ((e : AuthError) × (update_user_roles user_id names s ≡ (s, err e))
        × ((get_by_id user_id s.store ≡ none) ⊎ Unknown s.rbac names))
      ⊎ ((u : User) × (rs : List RoleModel) × (s' : Service) × (d : UserDetail) × (get_by_id user_id
              s.store
            ≡ some u)
          × Named s.rbac names rs
          × (update_user_roles user_id names s ≡ (s', ok d))
          × (s'.store ≡ s.store)
          × IsSound s'.rbac
          × ((v rid : String)
              → has_role s'.rbac v rid
                ≡ (if str_eq user_id v then elem rid (role_ids rs) else has_role s.rbac v rid)))
update_user_roles_lem user_id names s h = elim (Option-cases (get_by_id user_id s.store)) [
  | inl e ↦ inl (user_not_found, update_missing user_id names s e, inl e)
  | inr (u, e) ↦ elim (resolve_roles_lem names s.rbac) [
    | inl (x, bad, unknown) ↦ inl (x, update_unresolved user_id names s u x e bad, inr unknown)
    | inr (rs, good, named) ↦
        let none_left = remove_roles user_id (user_roles user_id s.rbac) s.rbac in
        let same = roles-remove_roles user_id (user_roles user_id s.rbac) s.rbac in
        let all : AllExist none_left rs =
          AllExist-roles s.rbac none_left rs same (Named-AllExist names s.rbac rs h named) in
        let (did, sound, has) =
          assign_roles_lem user_id rs none_left
            (remove_roles-IsSound user_id (user_roles user_id s.rbac) s.rbac h) all in
        inr (
          u,
          rs,
          _,
          _,
          e,
          named,
          update_resolved user_id names s u rs e good did,
          refl,
          sound,
          λ v rid. ground (arith, has v rid, cleared s.rbac user_id v rid h),
        )
  ]
]

delete_user-result :
    (user_id : String) (s : Service)
    → ((get_by_id user_id s.store ≡ none)
        × ((delete_user user_id s).1 ≡ err user_not_found)
        × ((delete_user user_id s).0.store ≡ s.store))
      ⊎ ((u : User) × (get_by_id user_id s.store ≡ some u)
          × ((delete_user user_id s).1 ≡ ok tt)
          × (get_by_id user_id (delete_user user_id s).0.store ≡ none))
unfolding delete_user Store.delete_user get_by_id
delete_user-result user_id s = elim (Option-cases (lookup user_id s.store.by_id)) [
  | inl e ↦ inl (e, ground (arith, e), ground (arith, e))
  | inr (u, e) ↦
      inr (u, e, ground (arith, e), ground (arith, e, lookup-delete_self user_id s.store.by_id))
]

-- In a sound store `DeleteUser` leaves the user with no role and every other user with the roles
-- that it had. Where there is no such user it does so too, reports that the user is not found and leaves
-- the store of users and tokens as it was; otherwise it succeeds, and the user is no longer found.
pub has_role-delete_user :
    (user_id : String) (s : Service)
    → IsSound s.rbac
    → ((v rid : String)
        → has_role (delete_user user_id s).0.rbac v rid
          ≡ (if str_eq user_id v then false else has_role s.rbac v rid))
      × (((get_by_id user_id s.store ≡ none)
            × ((delete_user user_id s).1 ≡ err user_not_found)
            × ((delete_user user_id s).0.store ≡ s.store))
          ⊎ ((u : User) × (get_by_id user_id s.store ≡ some u)
              × ((delete_user user_id s).1 ≡ ok tt)
              × (get_by_id user_id (delete_user user_id s).0.store ≡ none)))
unfolding delete_user
has_role-delete_user user_id s h =
    (λ v rid. cleared s.rbac user_id v rid h, delete_user-result user_id s)
