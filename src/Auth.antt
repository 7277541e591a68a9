-- ===== src/Auth.antt =====
-- internal/auth: users and tokens, roles and permissions, and the service above them.
pub mod Model
pub mod Store
pub mod Rbac
pub mod Service
