-- ===== src/Stream.antt =====
-- internal/stream: packets and their reference counts, the fan-out of a stream to its subscribers,
-- the registry of streams and the engine above it.
pub mod Packet
pub mod Pool
pub mod Fanout
pub mod Manager
pub mod Engine
