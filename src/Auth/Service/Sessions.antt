-- ===== src/Auth/Service/Sessions.antt =====
-- internal/auth/service.go: login, validation of tokens, logout and session information; and
-- `Issue` and `Verify` of internal/auth/jwt.go.
use cam_server.Base.{
  ℕ, ◌+◌, ◌*◌, ◌/◌, ◌<◌, ◌≡◌, Bool, true, false, not, Option, none, some, String, List, [], ◌∷◌,
  ltb, map, Result, ok, err, GoSet, insert, keys, if◌then◌else◌,
}
use cam_server.Auth.Model.{
  RoleModel, User, SessionToken, AuthError, invalid_credentials, account_disabled, token_invalid,
  token_expired, internal,
}
use cam_server.Auth.Rbac.{RbacStore, user_roles, role_permission_names}
use cam_server.Auth.Service.Defs.{Service}
use cam_server.Auth.Store.{
  Store, get_by_username, get_by_id, save_token, get_token, invalidate_token, is_set,
}

-- `jwtClaims`
pub record Claims : Type 0 where
  pub token_id : String
  pub subject : String
  pub issued_at : ℕ
  pub expires_at : ℕ
  pub roles : List String

-- One second, in nanoseconds.
abbrev pub second : ℕ
second = 1000000000

-- The libraries below this package: github.com/golang-jwt/jwt with the service's key, and
-- `bcrypt.CompareHashAndPassword`. A signed token is accepted, with the claims that were signed,
-- until its expiry, which the token holds in whole seconds; a hash that is malformed, as the one
-- that stands for a missing user, matches no password.
pub record Crypto : Type 0 where
  pub sign : Claims → Result String String
  pub verify : ℕ → String → Option Claims
  pub check_password : String → String → Bool
  pub verify-sign :
      (c : Claims) (signed : String) (now : ℕ)
      → sign c ≡ ok signed
      → now < c.expires_at / second * second
      → verify now signed ≡ some c
  pub no_user_hash :
      (password : String)
      → check_password "$2a$10$invalidhashfornonexistentuser000000000000000000000000" password
        ≡ false

-- `LoginResponse` with its `UserInfo`.
pub record LoginResponse : Type 0 where
  pub token : String
  pub expires_at : ℕ
  pub user_id : String
  pub username : String
  pub roles : List String

-- `SessionInfo`
pub record SessionInfo : Type 0 where
  pub user_id : String
  pub username : String
  pub roles : List String
  pub permissions : List String
  pub expires_at : ℕ

abbrev pub or_no_user : Option User → String
or_no_user none = "$2a$10$invalidhashfornonexistentuser000000000000000000000000"
or_no_user (some u) = u.password_hash

module _ (crypto : Crypto) (ttl : ℕ) where
  open crypto use {sign, verify, check_password}

  -- `JWTService.Issue`, for the token identifier that `uuid.New` returns.
  unfoldable pub issue : ℕ → String → User → List String → Result String (SessionToken × String)
  issue now token_id u role_names =
      let exp = now + ttl in
      elim (sign (record {
        token_id = token_id;
        subject = u.user_id;
        issued_at = now;
        expires_at = exp;
        roles = role_names;
      })) [
        | err e ↦ err e
        | ok signed ↦ ok (
          record {
            token_id = token_id;
            user_id = u.user_id;
            role_names = role_names;
            issued_at = now;
            expires_at = exp;
            invalidated_at = none;
          },
          signed,
        )
      ]

  -- `Login` for a user who is there and whose password matches.
  unfoldable pub login_user : ℕ → String → User → Service → Service × Result AuthError LoginResponse
  login_user now token_id u s =
      if not u.is_active
      then (s, err account_disabled)
      else let role_names = map (λ r. r.name) (user_roles u.user_id s.rbac) in
        elim (issue now token_id u role_names) [
          | err e ↦ (s, err (internal e))
          | ok (sess, signed) ↦ (
            record s { store = save_token sess s.store },
            ok (record {
              token = signed;
              expires_at = sess.expires_at;
              user_id = u.user_id;
              username = u.username;
              roles = role_names;
            }),
          )
        ]

  -- `Login`. The password is compared also where there is no user; `none` is the nil dereference
  -- that a match would then lead to.
  unfoldable pub login :
      ℕ → String → String → String → Service → Option (Service × Result AuthError LoginResponse)
  login now token_id username password s =
      let found = get_by_username username s.store in
      if not (check_password (or_no_user found) password)
      then some (s, err invalid_credentials)
      else elim found [ none ↦ none | some u ↦ some (login_user now token_id u s) ]

  -- The checks of `ValidateToken` on a token that the store holds.
  unfoldable pub check_session : ℕ → SessionToken → Store → Result AuthError (SessionToken × User)
  check_session now sess store =
      if is_set sess.invalidated_at
      then err token_invalid
      else if ltb sess.expires_at now
      then err token_expired
      else elim (get_by_id sess.user_id store) [
        | none ↦ err token_invalid
        | some u ↦ if not u.is_active then err token_invalid else ok (sess, u)
      ]

  -- `ValidateToken`
  unfoldable pub validate_token : ℕ → String → Service → Result AuthError (SessionToken × User)
  validate_token now signed s = elim (verify now signed) [
    | none ↦ err token_invalid
    | some claims ↦ elim (get_token claims.token_id s.store) [
      | none ↦ err token_invalid
      | some sess ↦ check_session now sess s.store
    ]
  ]

-- `Logout`
unfoldable pub logout : ℕ → String → Service → Service
logout now token_id s = record s { store = (invalidate_token now token_id s.store).0 }

-- The inner loop of `GetSessionInfo`.
unfoldable pub add_names : List String → GoSet → GoSet
add_names [] set = set
add_names (name ∷ names) set = add_names names (insert name true set)

unfoldable pub collect_permissions : List RoleModel → RbacStore → GoSet → GoSet
unfolding add_names
collect_permissions [] rbac set = set
collect_permissions (r ∷ rs) rbac set =
    collect_permissions rs rbac (add_names (role_permission_names r.role_id rbac) set)

-- `GetSessionInfo`
unfoldable pub get_session_info : SessionToken → User → Service → SessionInfo
get_session_info sess u s =
    let roles = user_roles u.user_id s.rbac in
    record {
      user_id = u.user_id;
      username = u.username;
      roles = map (λ r. r.name) roles;
      permissions = keys (collect_permissions roles s.rbac []);
      expires_at = sess.expires_at;
    }
