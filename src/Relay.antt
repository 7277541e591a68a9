-- ===== src/Relay.antt =====
-- internal/relay: the sessions of viewers at the relay gateway.
pub mod Tokens
pub mod Manager
