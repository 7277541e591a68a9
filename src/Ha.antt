-- ===== src/Ha.antt =====
-- internal/ha: idempotent requests, session leases, dependency health and retries.
pub mod Idempotency
pub mod Lease
pub mod Retry
pub mod Health
