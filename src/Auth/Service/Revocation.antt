-- ===== src/Auth/Service/Revocation.antt =====
-- A token that has been logged out stays invalid, whatever the service does afterwards.
use cam_server.Base.{
  ℕ, ◌≡◌, ◌≢◌, true, some, String, List, inl, inr, arith, eq_iff, lookup, Option-cases,
  lookup-insert, Result, err,
}
use cam_server.Auth.Model.{SessionToken, AuthError, token_invalid}
use cam_server.Auth.Service.Defs.{
  Service, Env, CreateUserRequest, store_user, create_checked, create_user, delete_user,
  update_user_roles,
}
use cam_server.Auth.Service.Sessions.{
  Crypto, Claims, LoginResponse, login, login_user, issue, logout, check_session, validate_token,
}
use cam_server.Auth.Service.Tokens.{new_session}
use cam_server.Auth.Store.{
  Store, add_user, get_by_username, save_token, get_token, invalidate_token, is_set,
}
use cam_server.Auth.Store

-- The store has no token with the identifier that is not invalidated.
abbrev IsRevoked : String → Store → Type 0
IsRevoked id s =
    (tok : SessionToken) → lookup id s.tokens ≡ some tok → is_set tok.invalidated_at ≡ true

tokens-create_user :
    (env : Env) (req : CreateUserRequest) (s : Service)
    → (create_user env req s).0.store.tokens ≡ s.store.tokens
unfolding create_user create_checked store_user add_user
tokens-create_user env req s = ground arith

tokens-delete_user :
    (user_id : String) (s : Service) → (delete_user user_id s).0.store.tokens ≡ s.store.tokens
unfolding delete_user Store.delete_user
tokens-delete_user user_id s = ground arith

tokens-update_user_roles :
    (user_id : String) (names : List String) (s : Service)
    → (update_user_roles user_id names s).0.store.tokens ≡ s.store.tokens
unfolding update_user_roles
tokens-update_user_roles user_id names s = ground arith

logout-IsRevoked : (now : ℕ) (id : String) (s : Service) → IsRevoked id (logout now id s).store
unfolding logout invalidate_token
logout-IsRevoked now id s tok found = elim (Option-cases (lookup id s.store.tokens)) [
  | inl e ↦ absurd (ground arith)
  | inr (t, e) ↦ ground (
    arith,
    lookup-insert id id (record t { invalidated_at = some now }) s.store.tokens,
    eq_iff id id,
  )
]

logout-keeps :
    (now : ℕ) (id other : String) (s : Service)
    → IsRevoked id s.store
    → IsRevoked id (logout now other s).store
unfolding logout invalidate_token
logout-keeps now id other s h tok found = elim (Option-cases (lookup other s.store.tokens)) [
  | inl e ↦ h tok (ground arith)
  | inr (t, e) ↦ ground (
    arith,
    lookup-insert other id (record t { invalidated_at = some now }) s.store.tokens,
    eq_iff other id,
    h tok,
  )
]

module _ (crypto : Crypto) (ttl : ℕ) where
  -- One call of the service. A login issues its token under another identifier than `id`, as
  -- `uuid.New` never returns one twice.
  pub data Call (id : String) (s : Service) : Service → Type 0 where
    call_login :
        (now : ℕ) (token_id username password : String) (s' : Service)
        (r : Result AuthError LoginResponse)
        → token_id ≢ id
        → login crypto ttl now token_id username password s ≡ some (s', r)
        → Call id s s'
    call_logout : (now : ℕ) (token_id : String) → Call id s (logout now token_id s)
    call_create : (env : Env) (req : CreateUserRequest) → Call id s (create_user env req s).0
    call_delete : (user_id : String) → Call id s (delete_user user_id s).0
    call_update :
        (user_id : String) (names : List String) → Call id s (update_user_roles user_id names s).0

  pub data Calls (id : String) (s : Service) : Service → Type 0 where
    done : Calls id s s
    more : {t u : Service} → Calls id s t → Call id t u → Calls id s u

  login-keeps :
      (now : ℕ) (id token_id username password : String) (s s' : Service)
      (r : Result AuthError LoginResponse)
      → token_id ≢ id
      → login crypto ttl now token_id username password s ≡ some (s', r)
      → IsRevoked id s.store
      → IsRevoked id s'.store
  unfolding login login_user issue save_token
  login-keeps now id token_id username password s s' r differ logged h tok found =
      elim (Option-cases (get_by_username username s.store)) [
        | inl e ↦ h tok (ground arith)
        | inr (u, e) ↦ ground (
          arith,
          lookup-insert token_id id (new_session crypto ttl now token_id u s) s.store.tokens,
          eq_iff token_id id,
          h tok,
        )
      ]

  Call-IsRevoked :
      (id : String) {s t : Service} → Call id s t → IsRevoked id s.store → IsRevoked id t.store
  Call-IsRevoked id {s} (call_login now token_id username password s' r differ logged) h =
      login-keeps now id token_id username password s s' r differ logged h
  Call-IsRevoked id {s} (call_logout now token_id) h = logout-keeps now id token_id s h
  Call-IsRevoked id {s} (call_create env req) h =
      λ tok found. h tok (rw (tokens-create_user env req s) at found)
  Call-IsRevoked id {s} (call_delete user_id) h =
      λ tok found. h tok (rw (tokens-delete_user user_id s) at found)
  Call-IsRevoked id {s} (call_update user_id names) h =
      λ tok found. h tok (rw (tokens-update_user_roles user_id names s) at found)

  Calls-IsRevoked :
      (id : String) {s t : Service} → Calls id s t → IsRevoked id s.store → IsRevoked id t.store
  Calls-IsRevoked id done h = h
  Calls-IsRevoked id (more cs c) h = Call-IsRevoked id c (Calls-IsRevoked id cs h)

  -- After a logout of a token, and any sequence of calls of the service behind it in which no login
  -- issues that identifier again, a signed token with that identifier is refused as invalid, at any
  -- time at which its signature verifies.
  pub validate_token-logout :
      (now later : ℕ) (id signed : String) (s t : Service) (c : Claims)
      → Calls id (logout now id s) t
      → crypto.verify later signed ≡ some c
      → c.token_id ≡ id
      → validate_token crypto ttl later signed t ≡ err token_invalid
  unfolding validate_token check_session get_token
  validate_token-logout now later id signed s t c calls verified same =
      elim (Option-cases (lookup id t.store.tokens)) [
        | inl e ↦ ground arith
        | inr (tok, e) ↦ ground (arith, Calls-IsRevoked id calls (logout-IsRevoked now id s) tok e)
      ]
