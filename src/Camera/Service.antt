-- ===== src/Camera/Service.antt =====
-- internal/camera/service.go
pub mod Outcomes
pub mod Parts
pub mod Accepts
use Prim.Native.String.{◌++◌ as joined}
use cam_server.Base.{
  ℕ, suc, ◌+◌, ℤ, pos, negsuc, Bool, true, false, Option, none, some, String, List, [], ◌∷◌, length,
  str_eq, ◌==◌, Result, ok, err, ◌>>=◌, if◌then◌else◌,
}
use cam_server.Camera.Fields.{Problem, Uuid}
use cam_server.Camera.Model.{
  Cam, CamWrite, CamSite, CamEndpoint, CamCredentials, CamCredentialsWrite, CamProfile,
  CamProfileWrite, CamHealth, HealthProbePointer,
}
use cam_server.Camera.Store.{CamStore, save, get_cam, list_cams, delete_cam}
use cam_server.Camera.Validation.{Url, validate_cam, validate_cam_write}

-- `Service`
pub record CamService : Type 0 where
  pub store : CamStore
  pub node_id : String
  pub tenant_id : String

pub data CamError : Type 0 where
  cam_not_found : CamError
  cam_validation : List Problem → CamError
  no_id : String → CamError
  cam_exists : String → CamError

abbrev default_ms : ℕ → ℤ → ℤ
default_ms fallback (pos n) = if n == 0 then pos fallback else pos n
default_ms fallback (negsuc n) = negsuc n

-- `applyDefaults`
unfoldable pub apply_defaults : CamWrite → CamWrite
apply_defaults body =
    let e = body.endpoint in
    record body {
      endpoint = record e {
        connect_timeout_ms = default_ms 5000 e.connect_timeout_ms;
        read_timeout_ms = default_ms 15000 e.read_timeout_ms;
        transport = if str_eq e.transport "" then "auto" else e.transport;
      };
    }

-- The results of `uuid.NewV7`, by the number of the call.
abbrev pub Ids : Type 0
Ids = ℕ → Result String String

abbrev pub new_id : Ids → ℕ → Result CamError String
new_id ids n = elim (ids n) [ err e ↦ err (no_id e) | ok id ↦ ok id ]

abbrev pub profile_of : String → CamProfileWrite → CamProfile
profile_of id pw = record {
  profile_id = id;
  name = pw.name;
  stream_path = pw.stream_path;
  codec_hint = pw.codec_hint;
  resolution_hint = pw.resolution_hint;
  bitrate_kbps_hint = pw.bitrate_kbps_hint;
  framerate_hint = pw.framerate_hint;
  is_default = pw.is_default;
}

-- The loop of `Create` that gives each profile an identifier, from the `n`-th call on.
unfoldable pub make_profiles : Ids → ℕ → List CamProfileWrite → Result CamError (List CamProfile)
make_profiles ids n [] = ok []
make_profiles ids n (pw ∷ pws) = do
  id ← new_id ids n
  rest ← make_profiles ids (suc n) pws
  ok (profile_of id pw ∷ rest)

-- The site identifier, and how many calls were made with it.
unfoldable pub site_id_of : Ids → String → Result CamError (String × ℕ)
site_id_of ids site_id =
    if str_eq site_id "" then new_id ids 1 >>= (λ id. ok (id, 2)) else ok (site_id, 1)

abbrev pub stored_credentials : String → Option CamCredentialsWrite → Option CamCredentials
stored_credentials cam_id none = none
stored_credentials cam_id (some w) = some (record {
  scheme = w.scheme;
  username = w.username;
  password_ref = joined cam_id ":creds";
  rotated_at = none;
})

abbrev pub fresh_health : String → String → CamHealth
fresh_health probe_id node_id = record {
  status = "unknown";
  last_seen_at = none;
  last_error = none;
  probe = record {
    probe_id = probe_id;
    cadence_ms = pos 30000;
    last_run_at = none;
    next_run_at = none;
    owner_node_id = node_id;
  };
  consecutive_failures = pos 0;
}

-- The camera that `Create` makes of a request.
abbrev pub new_cam : ℕ → String → String → List CamProfile → String → CamWrite → CamService → Cam
new_cam now cam_id site_id profiles probe_id body s = record {
  cam_id = cam_id;
  tenant_id = s.tenant_id;
  identity = body.identity;
  site = record { site_id = site_id; group_id = body.site.group_id; labels = body.site.labels };
  endpoint = body.endpoint;
  credentials = stored_credentials cam_id body.credentials;
  profiles = profiles;
  capabilities = body.capabilities;
  health = fresh_health probe_id s.node_id;
  created_at = now;
  updated_at = now;
  version = pos 0;
}

-- `if err := x.Validate(); err != nil { return ErrCamValidation{err} }`
abbrev pub accept : List Problem → Result CamError Unit
accept [] = ok tt
accept (p ∷ ps) = err (cam_validation (p ∷ ps))

-- `Create` between its two checks.
unfoldable pub make_cam : ℕ → Ids → CamWrite → CamService → Result CamError Cam
make_cam now ids body s = do
  cam_id ← new_id ids 0
  site ← site_id_of ids body.site.site_id
  profiles ← make_profiles ids site.1 body.profiles
  probe_id ← new_id ids (site.1 + length profiles)
  ok (new_cam now cam_id site.0 profiles probe_id body s)

-- The end of `Create`, where the store is changed.
unfoldable pub save_new : Cam → Option CamCredentialsWrite → CamService → Result CamError CamService
save_new cam creds s = elim (save cam creds s.store) [
  | none ↦ err (cam_exists cam.cam_id)
  | some store ↦ ok (record s { store = store })
]

module _ (parse : String → Option Uuid) (parse_url : String → Option Url) where
  -- `Create` behind `applyDefaults`.
  unfoldable pub create_checked :
      ℕ → Ids → CamWrite → CamService → Result CamError (CamService × Cam)
  create_checked now ids body s = do
    request_valid ← accept (validate_cam_write parse parse_url body)
    cam ← make_cam now ids body s
    cam_valid ← accept (validate_cam parse parse_url cam)
    s' ← save_new cam body.credentials s
    ok (s', cam)

  -- `Create`
  unfoldable pub create_cam : ℕ → Ids → CamWrite → CamService → Result CamError (CamService × Cam)
  create_cam now ids request s = create_checked now ids (apply_defaults request) s

-- `Get`
unfoldable pub find_cam : String → CamService → Result CamError Cam
find_cam cam_id s = elim (get_cam cam_id s.store) [ none ↦ err cam_not_found | some c ↦ ok c ]

-- `List`
unfoldable pub all_cams : CamService → List Cam
all_cams s = list_cams s.store

-- `Delete`
unfoldable pub remove_cam : String → CamService → CamService × Result CamError Unit
remove_cam cam_id s =
    let (store, there) = delete_cam cam_id s.store in
    if there then (record s { store = store }, ok tt) else (s, err cam_not_found)
