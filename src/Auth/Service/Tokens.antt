-- ===== src/Auth/Service/Tokens.antt =====
-- Login and the tokens that it issues.
use cam_server.Base.{
  ℕ, ◌+◌, ◌*◌, ◌/◌, ◌≤◌, ◌<◌, ◌≡◌, ◌≢◌, refl, true, none, some, String, map, inl, inr, arith,
  Option-cases, lookup-insert_self, ok,
}
use native.Mathlib.Nat.{le_trans}
use cam_server.Auth.Model.{User, SessionToken}
use cam_server.Auth.Rbac.{user_roles}
use cam_server.Auth.Service.Defs.{Service}
use cam_server.Auth.Service.Sessions.{
  Crypto, Claims, LoginResponse, second, issue, login_user, login, check_session, validate_token,
}
use cam_server.Auth.Store.{get_by_username, get_by_id, get_token, save_token}
use cam_server.Auth.Store.Consistency.{IsConsistent}

second_floor : (t : ℕ) → t / second * second ≤ t
second_floor t = omega arith

module _ (crypto : Crypto) (ttl : ℕ) where
  open crypto use {sign, verify, check_password, verify-sign, no_user_hash}

  -- The session that `Issue` makes for a user.
  abbrev pub new_session : ℕ → String → User → Service → SessionToken
  new_session now token_id u s = record {
    token_id = token_id;
    user_id = u.user_id;
    role_names = map (λ r. r.name) (user_roles u.user_id s.rbac);
    issued_at = now;
    expires_at = now + ttl;
    invalidated_at = none;
  }

  abbrev claims_of : ℕ → String → User → Service → Claims
  claims_of now token_id u s = record {
    token_id = token_id;
    subject = u.user_id;
    issued_at = now;
    expires_at = now + ttl;
    roles = map (λ r. r.name) (user_roles u.user_id s.rbac);
  }

  -- `Login` never dereferences a missing user: it returns on every input.
  pub login-ne-none :
      (now : ℕ) (token_id username password : String) (s : Service)
      → login crypto ttl now token_id username password s ≢ none
  unfolding login
  login-ne-none now token_id username password s h = ground (arith, no_user_hash password)

  -- What a login that succeeds has checked and done.
  login_ok :
      (now : ℕ) (token_id username password : String) (s s' : Service) (resp : LoginResponse)
      → login crypto ttl now token_id username password s ≡ some (s', ok resp)
      → (u : User) × (get_by_username username s.store ≡ some u)
        × (check_password u.password_hash password ≡ true)
        × (u.is_active ≡ true)
        × (sign (claims_of now token_id u s) ≡ ok resp.token)
        × (s' ≡ record s { store = save_token (new_session now token_id u s) s.store })
  unfolding login login_user issue
  login_ok now token_id username password s s' resp h =
      elim (Option-cases (get_by_username username s.store)) [
        | inl e ↦ absurd (ground (arith, no_user_hash password))
        | inr (u, e) ↦ (u, e, ground arith, ground arith, ground arith, ground arith)
      ]

  validate_token_accepts :
      (later : ℕ) (signed : String) (s : Service) (c : Claims) (sess : SessionToken) (u : User)
      → verify later signed ≡ some c
      → get_token c.token_id s.store ≡ some sess
      → sess.invalidated_at ≡ none
      → later ≤ sess.expires_at
      → get_by_id sess.user_id s.store ≡ some u
      → u.is_active ≡ true
      → validate_token crypto ttl later signed s ≡ ok (sess, u)
  unfolding validate_token check_session
  validate_token_accepts later signed s c sess u v g i l b a = ground arith

  -- In a consistent store the token of a successful login belongs to an active user with that name whose password
  -- matched; until its expiry, in whole seconds, it is valid, for that user and under the
  -- identifier that it was issued with.
  pub validate_token-login :
      (now later : ℕ) (token_id username password : String) (s s' : Service) (resp : LoginResponse)
      → IsConsistent s.store
      → login crypto ttl now token_id username password s ≡ some (s', ok resp)
      → later < (now + ttl) / second * second
      → (sess : SessionToken) × (u : User) × (validate_token crypto ttl later resp.token s'
          ≡ ok (sess, u))
        × (sess.token_id ≡ token_id)
        × (u.username ≡ username)
        × (u.is_active ≡ true)
        × (check_password u.password_hash password ≡ true)
  unfolding get_token get_by_id get_by_username save_token
  validate_token-login now later token_id username password s s' resp h logged early =
      let (u, found, matched, active, signed, after) =
        login_ok now token_id username password s s' resp logged in
      let (named, there) = h.by_name username u found in
      let sess = new_session now token_id u s in
      (
        sess,
        u,
        rw after (
            validate_token_accepts later resp.token _ (claims_of now token_id u s) sess u
              (verify-sign (claims_of now token_id u s) resp.token later signed early)
              (lookup-insert_self token_id sess s.store.tokens) refl
              (le_trans (omega arith) (second_floor (now + ttl))) there active),
        refl,
        named,
        active,
        matched,
      )
