-- ===== src/Protocol.antt =====
-- internal/protocol: the protocols at the boundaries of the server.
pub mod Taxonomy
