-- ===== src/Auth/Store/Consistency.antt =====
-- The two maps of users agree, and every operation of the store keeps them so.
use cam_server.Base.{
  ℕ, ◌≡◌, true, false, none, some, String, inl, inr, arith, eq_iff, str_eq, lookup, insert, delete,
  is_some, Option-cases, lookup-insert, lookup-delete,
}
use cam_server.Auth.Model.{User, SessionToken}
use cam_server.Auth.Store.{
  Store, new_store, add_user, get_by_username, get_by_id, delete_user, save_token, invalidate_token,
}

pub record IsConsistent (s : Store) : Type 0 where
  pub by_name :
      (n : String) (u : User)
      → lookup n s.users ≡ some u
      → (u.username ≡ n) × (lookup u.user_id s.by_id ≡ some u)
  pub by_key :
      (i : String) (u : User)
      → lookup i s.by_id ≡ some u
      → (u.user_id ≡ i) × (lookup u.username s.users ≡ some u)
  pub token_key :
      (t : String) (tok : SessionToken) → lookup t s.tokens ≡ some tok → tok.token_id ≡ t

pub new_store-IsConsistent : IsConsistent new_store
unfolding lookup
new_store-IsConsistent = record {
  by_name = λ n u h. cc;
  by_key = λ i u h. cc;
  token_key = λ t tok h. cc;
}

-- A new user whose identifier is not in use keeps the two maps of users in agreement, and each token
-- under its identifier.
pub add_user-IsConsistent :
    (u : User) (s s' : Store)
    → IsConsistent s
    → get_by_id u.user_id s ≡ none
    → add_user u s ≡ some s'
    → IsConsistent s'
unfolding add_user get_by_id
add_user-IsConsistent u s s' h fresh added = elim (Option-cases (lookup u.username s.users)) [
  | inr (w, e) ↦ absurd (ground arith)
  | inl e ↦
      let same : s'
          ≡ record s { users = insert u.username u s.users; by_id = insert u.user_id u s.by_id } =
        ground arith in
      rw same (record {
        by_name = λ n w p. ground (
          arith,
          lookup-insert u.username n u s.users,
          lookup-insert u.user_id w.user_id u s.by_id,
          h.by_name n w,
          eq_iff u.username n,
          eq_iff u.user_id w.user_id,
        );
        by_key = λ i w p. ground (
          arith,
          lookup-insert u.user_id i u s.by_id,
          lookup-insert u.username w.username u s.users,
          h.by_key i w,
          eq_iff u.user_id i,
          eq_iff u.username w.username,
        );
        token_key = h.token_key;
      })
]

delete_user_found :
    (user_id : String) (u : User) (s : Store)
    → lookup user_id s.by_id ≡ some u
    → delete_user user_id s
      ≡ (record s { by_id = delete user_id s.by_id; users = delete u.username s.users }, true)
unfolding delete_user
delete_user_found user_id u s e = rw (e, delete_user)

delete_user_missing :
    (user_id : String) (s : Store)
    → lookup user_id s.by_id ≡ none
    → delete_user user_id s ≡ (s, false)
unfolding delete_user
delete_user_missing user_id s e = rw (e, delete_user)

-- `DeleteUser` keeps the two maps of users in agreement, and each token under its identifier, also
-- where there is no such user.
pub delete_user-IsConsistent :
    (user_id : String) (s : Store) → IsConsistent s → IsConsistent (delete_user user_id s).0
delete_user-IsConsistent user_id s h = elim (Option-cases (lookup user_id s.by_id)) [
  | inl e ↦ rw (delete_user_missing user_id s e) h
  | inr (u, e) ↦
      let (same_id, named) = h.by_key user_id u e in
      rw (delete_user_found user_id u s e) (record {
        by_name = λ n w p. ground (
          arith,
          lookup-delete u.username n s.users,
          lookup-delete user_id w.user_id s.by_id,
          h.by_name n w,
          eq_iff u.username n,
          eq_iff user_id w.user_id,
        );
        by_key = λ i w p. ground (
          arith,
          lookup-delete user_id i s.by_id,
          lookup-delete u.username w.username s.users,
          h.by_key i w,
          eq_iff user_id i,
          eq_iff u.username w.username,
        );
        token_key = h.token_key;
      })
]

-- In a consistent store: after `DeleteUser` the user is found neither by its identifier nor by its name, and every other
-- user is found as before; the call reports whether there was such a user.
pub delete_user-lookups :
    (user_id : String) (s : Store)
    → IsConsistent s
    → (get_by_id user_id (delete_user user_id s).0 ≡ none)
      × ((i : String)
          → str_eq user_id i ≡ false
          → get_by_id i (delete_user user_id s).0 ≡ get_by_id i s)
      × ((u : User)
          → get_by_id user_id s ≡ some u
          → get_by_username u.username (delete_user user_id s).0 ≡ none)
      × ((delete_user user_id s).1 ≡ is_some (get_by_id user_id s))
unfolding get_by_id get_by_username delete_user
delete_user-lookups user_id s h = (
  ground (arith, lookup-delete user_id user_id s.by_id, eq_iff user_id user_id),
  λ i differ. ground (arith, λ (u : User). lookup-delete user_id i s.by_id),
  λ u found.
      ground (arith, lookup-delete u.username u.username s.users, eq_iff u.username u.username),
  ground arith,
)

pub save_token-IsConsistent :
    (tok : SessionToken) (s : Store) → IsConsistent s → IsConsistent (save_token tok s)
unfolding save_token
save_token-IsConsistent tok s h = record {
  by_name = h.by_name;
  by_key = h.by_key;
  token_key = λ t x p.
      ground
        (arith, lookup-insert tok.token_id t tok s.tokens, eq_iff tok.token_id t, h.token_key t x);
}

-- `InvalidateToken` keeps the store consistent.
pub invalidate_token-IsConsistent :
    (now : ℕ) (token_id : String) (s : Store)
    → IsConsistent s
    → IsConsistent (invalidate_token now token_id s).0
unfolding invalidate_token
invalidate_token-IsConsistent now token_id s h = record {
  by_name = λ n u p. ground (arith, h.by_name n u);
  by_key = λ i u p. ground (arith, h.by_key i u);
  token_key = λ t x p. elim (Option-cases (lookup token_id s.tokens)) [
    | inl e ↦ h.token_key t x (ground arith)
    | inr (tok, e) ↦ ground (
      arith,
      lookup-insert token_id t (record tok { invalidated_at = some now }) s.tokens,
      eq_iff token_id t,
      h.token_key token_id tok,
      h.token_key t x,
    )
  ];
}
