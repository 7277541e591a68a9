-- ===== src/Tests.antt =====
-- Concrete inputs for the theorems: each witness applies one of them where its hypotheses hold.
mod Requests
mod Accounts
mod Roles
mod Files
mod Streams
mod Ingest
mod Engines
mod Control
mod Cameras
mod CameraService
mod Viewers
mod Nodes
