-- ===== src/Rtsp.antt =====
-- internal/rtsp/ingester.go: the packets that are built from RTP, and the sessions that pull them.
pub mod Frames
pub mod Callbacks
pub mod Sessions
