-- ===== src/Auth/Rbac/Soundness.antt =====
-- Roles are assigned only if they exist, and the sets hold nothing but `true`.
use cam_server.Base.{
  ◌≡◌, Bool, true, ◌&&◌, none, some, String, inl, inr, arith, eq_iff, str_eq, lookup, insert,
  delete, Bool-cases, Option-cases, lookup-insert, lookup-delete, if◌then◌else◌, GoMap, GoSet,
  set_at, add_to, remove_from, ok,
}
use cam_server.Auth.Model.{Permission, RoleModel}
use cam_server.Auth.Rbac.{
  RbacStore, new_rbac, save_permission, save_role, assign_permission_to_role, assign_role_to_user,
  remove_role_from_user,
}

pub record IsSound (s : RbacStore) : Type 0 where
  pub role_key : (rid : String) (r : RoleModel) → lookup rid s.roles ≡ some r → r.role_id ≡ rid
  pub named :
      (n : String) (r : RoleModel)
      → lookup n s.roles_by_name ≡ some r
      → (x : RoleModel) × (lookup r.role_id s.roles ≡ some x)
  pub assigned :
      (u rid : String) (b : Bool)
      → lookup rid (set_at u s.user_roles) ≡ some b
      → (b ≡ true) × ((r : RoleModel) × (lookup rid s.roles ≡ some r))
  pub granted : (rid p : String) (b : Bool) → lookup p (set_at rid s.role_perms) ≡ some b → b ≡ true

pub new_rbac-IsSound : IsSound new_rbac
unfolding lookup set_at
new_rbac-IsSound = record {
  role_key = λ rid r h. cc;
  named = λ n r h. cc;
  assigned = λ u rid b h. cc;
  granted = λ rid p b h. cc;
}

pub save_permission-IsSound :
    (p : Permission) (s : RbacStore) → IsSound s → IsSound (save_permission p s)
unfolding save_permission
save_permission-IsSound p s h = record {
  role_key = h.role_key;
  named = h.named;
  assigned = h.assigned;
  granted = h.granted;
}

pub save_role-IsSound : (r : RoleModel) (s : RbacStore) → IsSound s → IsSound (save_role r s)
unfolding save_role
save_role-IsSound r s h = record {
  role_key = λ rid x p.
      ground (arith, lookup-insert r.role_id rid r s.roles, eq_iff r.role_id rid, h.role_key rid x);
  named = λ n x p. elim (Bool-cases (str_eq r.name n)) [
    | inl same ↦ (
      r,
      ground (
        arith,
        lookup-insert r.name n r s.roles_by_name,
        lookup-insert r.role_id x.role_id r s.roles,
        eq_iff r.role_id x.role_id,
      ),
    )
    | inr differ ↦
        let (y, there) = h.named n x (ground (arith, lookup-insert r.name n r s.roles_by_name)) in
        (
          if str_eq r.role_id x.role_id then r else y,
          ground (arith, lookup-insert r.role_id x.role_id r s.roles),
        )
  ];
  assigned = λ u rid b p.
      let (set_true, (x, there)) = h.assigned u rid b p in
      (
        set_true,
        (
          if str_eq r.role_id rid then r else x,
          ground (arith, lookup-insert r.role_id rid r s.roles),
        ),
      );
  granted = h.granted;
}

pub lookup-add_to :
    (k j x y : String) (sets : GoMap GoSet)
    → lookup y (set_at j (add_to k x sets))
      ≡ (if str_eq k j && str_eq x y then some true else lookup y (set_at j sets))
unfolding set_at add_to
lookup-add_to k j x y sets = ground (
  arith,
  eq_iff k j,
  lookup-insert k j (insert x true (set_at k sets)) sets,
  lookup-insert x y true (set_at k sets),
)

lookup-remove_from :
    (k j x y : String) (sets : GoMap GoSet)
    → lookup y (set_at j (remove_from k x sets))
      ≡ (if str_eq k j && str_eq x y then none else lookup y (set_at j sets))
unfolding set_at remove_from lookup
lookup-remove_from k j x y sets = elim (Option-cases (lookup k sets)) [
  | inl e ↦ ground (arith, eq_iff k j)
  | inr (set, e) ↦
      ground (arith, eq_iff k j, lookup-insert k j (delete x set) sets, lookup-delete x y set)
]

pub assign_permission_to_role-IsSound :
    (rid pid : String) (s s' : RbacStore)
    → IsSound s
    → assign_permission_to_role rid pid s ≡ ok s'
    → IsSound s'
unfolding assign_permission_to_role
assign_permission_to_role-IsSound rid pid s s' h done =
    elim (Option-cases (lookup pid s.permissions)) [
      | inl e ↦ absurd (ground arith)
      | inr (perm, e) ↦
          let same : s' ≡ record s { role_perms = add_to rid perm.name s.role_perms } =
            ground arith in
          rw same (record {
            role_key = h.role_key;
            named = h.named;
            assigned = h.assigned;
            granted = λ j x b p.
                ground (arith, lookup-add_to rid j perm.name x s.role_perms, h.granted j x b);
          })
    ]

pub assign_role_to_user-IsSound :
    (u rid : String) (s s' : RbacStore)
    → IsSound s
    → assign_role_to_user u rid s ≡ ok s'
    → IsSound s'
unfolding assign_role_to_user
assign_role_to_user-IsSound u rid s s' h done = elim (Option-cases (lookup rid s.roles)) [
  | inl e ↦ absurd (ground arith)
  | inr (r, e) ↦
      let same : s' ≡ record s { user_roles = add_to u rid s.user_roles } = ground arith in
      rw same (record {
        role_key = h.role_key;
        named = h.named;
        assigned = λ v j b p. elim (Bool-cases (str_eq u v && str_eq rid j)) [
          | inl hit ↦ (
            ground (arith, lookup-add_to u v rid j s.user_roles),
            (r, ground (arith, eq_iff rid j)),
          )
          | inr miss ↦ h.assigned v j b (ground (arith, lookup-add_to u v rid j s.user_roles))
        ];
        granted = h.granted;
      })
]

pub remove_role_from_user-IsSound :
    (u rid : String) (s : RbacStore) → IsSound s → IsSound (remove_role_from_user u rid s)
unfolding remove_role_from_user
remove_role_from_user-IsSound u rid s h = record {
  role_key = h.role_key;
  named = h.named;
  assigned =
      λ v j b p. h.assigned v j b (ground (arith, lookup-remove_from u v rid j s.user_roles));
  granted = h.granted;
}
