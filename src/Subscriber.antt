-- ===== src/Subscriber.antt =====
-- internal/subscriber: the outputs of a stream. What they hold of a packet is a reference to it.
pub mod Defs
pub mod Gop
pub mod References
