-- ===== src/Auth/Service.antt =====
-- internal/auth/service.go over the in-memory stores. What lies outside the repository comes in as
-- `Env` and `Crypto`: password hashes (golang.org/x/crypto/bcrypt), random identifiers
-- (github.com/google/uuid) and the signature library below internal/auth/jwt.go.
pub mod Defs
pub mod Sessions
pub mod Info
pub mod Tokens
pub mod Revocation
pub mod Resolved
pub mod Roles
pub mod Seed
