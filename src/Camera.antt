-- ===== src/Camera.antt =====
-- internal/camera: the camera aggregate, its validation, and the service over the store of cameras.
pub mod Model
pub mod Texts
pub mod Fields
pub mod Validation
pub mod Store
pub mod Service
