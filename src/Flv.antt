-- ===== src/Flv.antt =====
-- internal/flv: the FLV container, written by writer.go and read by reader.go.
pub mod Writer
pub mod Reader
pub mod RoundTrip
pub mod Errors
pub mod Serialise
