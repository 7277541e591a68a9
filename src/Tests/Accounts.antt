-- ===== src/Tests/Accounts.antt =====
-- One user who logs in and out: internal/auth/service.go and internal/auth/store.go.
use cam_server.Base.{
  ℕ, ◌/◌, ◌*◌, ◌<◌, ◌≡◌, refl, true, false, Option, none, some, String, [], ◌∷◌, ltb, ◌==◌, str_eq,
  eq_iff, Result, ok, err, lookup, insert, delete, set_at, arith, if◌then◌else◌,
}
use cam_server.Auth.Model.{User, SessionToken, token_invalid}
use cam_server.Auth.Rbac.{new_rbac, user_roles, roles_of}
use cam_server.Auth.Service.Defs.{Service}
use cam_server.Auth.Service.Revocation.{call_logout, done, more, validate_token-logout}
use cam_server.Auth.Service.Sessions.{
  Crypto, Claims, LoginResponse, second, login, login_user, issue, logout, validate_token,
}
use cam_server.Auth.Service.Tokens.{new_session, validate_token-login}
use cam_server.Auth.Store.{Store, new_store, add_user, get_by_id, get_by_username, save_token}
use cam_server.Auth.Store.Consistency.{IsConsistent, new_store-IsConsistent, add_user-IsConsistent}

abbrev alice : User
alice = record {
  user_id = "u1";
  username = "alice";
  password_hash = "hash";
  created_at = 0;
  updated_at = 0;
  is_active = true;
}

abbrev with_alice : Store
with_alice = record { users = ("alice", alice) ∷ []; by_id = ("u1", alice) ∷ []; tokens = [] }

alice_unused : get_by_id "u1" new_store ≡ none
unfolding get_by_id lookup
alice_unused = refl

alice_added : add_user alice new_store ≡ some with_alice
unfolding add_user lookup insert delete
alice_added = refl

with_alice-IsConsistent : IsConsistent with_alice
with_alice-IsConsistent =
    add_user-IsConsistent alice new_store with_alice new_store-IsConsistent alice_unused alice_added

-- What is signed for alice at the time 0 with a lifetime of two seconds.
abbrev alice_claims : Claims
alice_claims = record {
  token_id = "t1";
  subject = "u1";
  issued_at = 0;
  expires_at = 2000000000;
  roles = [];
}

abbrev sign_alice : Claims → Result String String
sign_alice c = elim c.roles [
  | r ∷ rs ↦ err "no key"
  | [] ↦
      if str_eq c.token_id "t1"
      then if str_eq c.subject "u1"
        then if c.issued_at == 0
          then if c.expires_at == 2000000000 then ok "signed" else err "no key"
          else err "no key"
        else err "no key"
      else err "no key"
]

abbrev verify_alice : ℕ → String → Option Claims
verify_alice now signed =
    if str_eq signed "signed" then if ltb now 2000000000 then some alice_claims else none else none

verify-sign_alice :
    (c : Claims) (signed : String) (now : ℕ)
    → sign_alice c ≡ ok signed
    → now < c.expires_at / second * second
    → verify_alice now signed ≡ some c
verify-sign_alice c signed now h early =
    ground (arith, eq_iff c.token_id "t1", eq_iff c.subject "u1", eq_iff signed "signed")

-- A key that signs alice's claims only, and passwords that match if they are "pw".
abbrev crypto : Crypto
crypto = record {
  sign = sign_alice;
  verify = verify_alice;
  check_password = λ hash password. if str_eq hash "hash" then str_eq password "pw" else false;
  verify-sign = verify-sign_alice;
  no_user_hash = λ password. refl;
}

abbrev before : Service
before = record { store = with_alice; rbac = new_rbac }

abbrev after : Service
after = record {
  store = save_token (new_session crypto 2000000000 0 "t1" alice before) with_alice;
  rbac = new_rbac;
}

abbrev response : LoginResponse
response = record {
  token = "signed";
  expires_at = 2000000000;
  user_id = "u1";
  username = "alice";
  roles = [];
}

logged_in : login crypto 2000000000 0 "t1" "alice" "pw" before ≡ some (after, ok response)
unfolding login login_user issue get_by_username lookup user_roles roles_of set_at
logged_in = refl

validate_token-login_example :
    (sess : SessionToken) × (u : User) × (validate_token crypto 2000000000 1500000000 "signed" after
      ≡ ok (sess, u))
    × (sess.token_id ≡ "t1")
    × (u.username ≡ "alice")
    × (u.is_active ≡ true)
    × ((if str_eq u.password_hash "hash" then str_eq "pw" "pw" else false) ≡ true)
validate_token-login_example =
    validate_token-login crypto 2000000000 0 1500000000 "t1" "alice" "pw" before after response
      with_alice-IsConsistent logged_in (omega arith)

abbrev left : Service
left = logout 10 "t1" after

validate_token-logout_example :
    validate_token crypto 2000000000 20 "signed" (logout 15 "t2" left) ≡ err token_invalid
validate_token-logout_example =
    validate_token-logout crypto 2000000000 10 20 "t1" "signed" after (logout 15 "t2" left)
      alice_claims (more done (call_logout 15 "t2")) refl refl
