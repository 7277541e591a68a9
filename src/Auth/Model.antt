-- ===== src/Auth/Model.antt =====
-- internal/auth/model.go. A time is a number of nanoseconds; a `*time.Time` is an `Option`.
use cam_server.Base.{ℕ, Bool, Option, String, List}

pub record Permission : Type 0 where
  pub permission_id : String
  pub name : String
  pub description : String
  pub created_at : ℕ

pub record RoleModel : Type 0 where
  pub role_id : String
  pub name : String
  pub description : String
  pub created_at : ℕ

pub record User : Type 0 where
  pub user_id : String
  pub username : String
  pub password_hash : String
  pub created_at : ℕ
  pub updated_at : ℕ
  pub is_active : Bool

pub record SessionToken : Type 0 where
  pub token_id : String
  pub user_id : String
  pub role_names : List String
  pub issued_at : ℕ
  pub expires_at : ℕ
  pub invalidated_at : Option ℕ

-- The errors of service.go, and those that it wraps.
pub data AuthError : Type 0 where
  invalid_credentials account_disabled token_invalid token_expired : AuthError
  user_not_found user_already_exists : AuthError
  role_not_found : String → AuthError
  internal : String → AuthError
