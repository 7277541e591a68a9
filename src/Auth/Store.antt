-- ===== src/Auth/Store.antt =====
-- internal/auth/store.go: users by name and by identifier, and the issued tokens. A user is never
-- changed once it is in the store, so both maps hold the value of the shared `*User`.
pub mod Consistency
use cam_server.Base.{
  ℕ, zero, ◌+◌, Bool, true, false, ◌&&◌, Option, none, some, String, List, [], ◌∷◌, ltb, GoMap,
  lookup, insert, delete, values, if◌then◌else◌,
}
use cam_server.Auth.Model.{User, SessionToken}

pub record Store : Type 0 where
  pub users : GoMap User
  pub by_id : GoMap User
  pub tokens : GoMap SessionToken

-- `NewStore`
abbrev pub new_store : Store
new_store = record { users = []; by_id = []; tokens = [] }

-- `AddUser`; `none` is the error for a name that is taken.
unfoldable pub add_user : User → Store → Option Store
add_user u s = elim (lookup u.username s.users) [
  | some _ ↦ none
  | none ↦
      some (record s { users = insert u.username u s.users; by_id = insert u.user_id u s.by_id })
]

unfoldable pub get_by_username : String → Store → Option User
get_by_username username s = lookup username s.users

unfoldable pub get_by_id : String → Store → Option User
get_by_id user_id s = lookup user_id s.by_id

unfoldable pub list_users : Store → List User
list_users s = values s.by_id

unfoldable pub delete_user : String → Store → Store × Bool
delete_user user_id s = elim (lookup user_id s.by_id) [
  | none ↦ (s, false)
  | some u ↦ (record s { by_id = delete user_id s.by_id; users = delete u.username s.users }, true)
]

unfoldable pub save_token : SessionToken → Store → Store
save_token tok s = record s { tokens = insert tok.token_id tok s.tokens }

unfoldable pub get_token : String → Store → Option SessionToken
get_token token_id s = lookup token_id s.tokens

-- `t.InvalidatedAt != nil`
abbrev pub is_set : Option ℕ → Bool
is_set none = false
is_set (some at) = true

-- The map holds a pointer: the write to `t.InvalidatedAt` shows at the key.
unfoldable pub invalidate_token : ℕ → String → Store → Store × Bool
invalidate_token now token_id s = elim (lookup token_id s.tokens) [
  | none ↦ (s, false)
  | some t ↦ if is_set t.invalidated_at then (s, false) else (
    record s { tokens = insert token_id (record t { invalidated_at = some now }) s.tokens },
    true,
  )
]

-- The test of the loop in `ActiveCount`.
abbrev pub is_live : ℕ → SessionToken → Bool
is_live now t = elim t.invalidated_at [ none ↦ ltb now t.expires_at | some _ ↦ false ]

unfoldable pub count_live : ℕ → List SessionToken → ℕ
count_live now [] = 0
count_live now (t ∷ ts) = (if is_live now t then 1 else 0) + count_live now ts

unfoldable pub active_count : ℕ → Store → ℕ
unfolding count_live
active_count now s = count_live now (values s.tokens)
