-- ===== src/Api.antt =====
-- internal/api: the handlers that put the other parts together.
pub mod Session
