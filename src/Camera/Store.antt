-- ===== src/Camera/Store.antt =====
-- internal/camera/store.go: the cameras, and apart from them the credentials in plain text.
use cam_server.Base.{
  Bool, true, false, Option, none, some, String, List, GoMap, lookup, insert, delete, values,
}
use cam_server.Camera.Model.{Cam, CamCredentialsWrite}

-- `Store`
pub record CamStore : Type 0 where
  pub cameras : GoMap Cam
  pub creds : GoMap CamCredentialsWrite

-- `Save`; `none` is the error for a camera that exists.
unfoldable pub save : Cam → Option CamCredentialsWrite → CamStore → Option CamStore
save cam cw s = elim (lookup cam.cam_id s.cameras) [
  | some _ ↦ none
  | none ↦ some (record {
    cameras = insert cam.cam_id cam s.cameras;
    creds = elim cw [ none ↦ s.creds | some w ↦ insert cam.cam_id w s.creds ];
  })
]

-- `Get`
unfoldable pub get_cam : String → CamStore → Option Cam
get_cam cam_id s = lookup cam_id s.cameras

-- `List`
unfoldable pub list_cams : CamStore → List Cam
list_cams s = values s.cameras

-- `Delete`
unfoldable pub delete_cam : String → CamStore → CamStore × Bool
delete_cam cam_id s = elim (lookup cam_id s.cameras) [
  | none ↦ (s, false)
  | some _ ↦ (record { cameras = delete cam_id s.cameras; creds = delete cam_id s.creds }, true)
]
