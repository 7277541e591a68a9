-- ===== src/Tests/CameraService.antt =====
-- A service that holds no camera, and requests to it: internal/camera/service.go.
use cam_server.Base.{
  ℕ, ◌≡◌, ◌↔◌, ◌≢◌, refl, insert, delete, pos, true, false, Option, none, some, String, [], ◌∷◌, ok,
  err, lookup, arith, str_eq, eq_iff, if◌then◌else◌,
}
use cam_server.Camera.Fields.{
  Uuid, validate_uuid_v7, validate_trimmed_string, validate_profile_fields, validate_resolution,
  valid_codec, validate_loop, validate_profiles, validate_profile, validate_credentials,
  validate_credentials_write, valid_scheme, validate_write_profiles, validate_write_loop,
  validate_profile_write,
}
use cam_server.Camera.Model.{Cam, CamWrite, CamProfileWrite, CamCredentialsWrite}
use cam_server.Camera.Service.{
  CamService, CamError, cam_not_found, create_cam, create_checked, make_cam, save_new,
  make_profiles, site_id_of, apply_defaults, stored_credentials, find_cam, new_cam, profile_of,
}
use cam_server.Camera.Service.Accepts.{create_cam_accepts}
use cam_server.Camera.Service.Outcomes.{create_cam-none-scheme, find_cam-create_cam}
use cam_server.Camera.Store.{save}
use cam_server.Camera.Texts.{
  trimmed, starts_with_space, ends_with_space, is_space, has_slash, rune_count,
}
use cam_server.Camera.Validation.{
  Url, validate_identity, validate_site, validate_labels, validate_url, validate_endpoint,
  valid_transport, validate_capabilities, validate_probe, validate_last_error, validate_health,
  valid_status, validate_times, validate_cam, validate_cam_write,
}

abbrev one_id : String
one_id = "0190f1d2-0000-7000-8000-000000000001"

abbrev parse : String → Option Uuid
parse value = if str_eq value one_id then some (record { version = 7; text = one_id }) else none

abbrev parse_url : String → Option Url
parse_url text = some (record { url_scheme = "rtsp"; host = "10.0.0.7"; has_user = false })

abbrev main : CamProfileWrite
main = record {
  name = "main";
  stream_path = "/live";
  codec_hint = "h264";
  resolution_hint = none;
  bitrate_kbps_hint = none;
  framerate_hint = none;
  is_default = true;
}

abbrev admin : CamCredentialsWrite
admin = record { scheme = "basic"; username = "admin"; password = "admin" }

abbrev anonymous : CamCredentialsWrite
anonymous = record { scheme = "none"; username = ""; password = "" }

abbrev request : CamWrite
request = record {
  identity = record {
    name = "door";
    description = "";
    vendor = "";
    model = "";
    serial_number = "";
  };
  site = record { site_id = one_id; group_id = ""; labels = [] };
  endpoint = record {
    protocol = "rtsp";
    url = "rtsp://10.0.0.7/live";
    transport = "";
    connect_timeout_ms = pos 0;
    read_timeout_ms = pos 0;
  };
  credentials = some admin;
  profiles = main ∷ [];
  capabilities = record {
    supports_audio = false;
    supports_ptz = false;
    supports_onvif = true;
    discovered_codecs = [];
    notes = "";
  };
}

abbrev service : CamService
service = record {
  store = record { cameras = []; creds = [] };
  node_id = "node-1";
  tenant_id = one_id;
}

abbrev ids : ℕ → String
ids n = one_id

abbrev open_request : CamWrite
open_request = record request { credentials = some anonymous }

create_cam-none-scheme_example :
    ((validate_credentials_write anonymous ≡ [])
      ↔ ((anonymous.username ≡ "") × (anonymous.password ≡ "")))
    × ((e : CamError) × (create_cam parse parse_url 10 (λ n. ok (ids n)) open_request service
          ≡ err e))
create_cam-none-scheme_example =
    create_cam-none-scheme parse parse_url 10 (λ n. ok (ids n)) open_request service anonymous refl
      refl

request_valid : validate_cam_write parse parse_url (apply_defaults request) ≡ []
unfolding validate_cam_write apply_defaults validate_identity validate_site validate_labels
    validate_url validate_endpoint valid_transport validate_capabilities validate_uuid_v7
    validate_trimmed_string validate_profile_fields validate_resolution valid_codec
    validate_write_loop validate_write_profiles validate_profile_write validate_credentials_write
    valid_scheme trimmed starts_with_space ends_with_space is_space has_slash rune_count
request_valid = refl

-- The request passes the check in front of the camera that is refused.
open_request_valid : validate_cam_write parse parse_url (apply_defaults open_request) ≡ []
unfolding validate_cam_write apply_defaults validate_identity validate_site validate_labels
    validate_url validate_endpoint valid_transport validate_capabilities validate_uuid_v7
    validate_trimmed_string validate_profile_fields validate_resolution valid_codec
    validate_write_loop validate_write_profiles validate_profile_write validate_credentials_write
    valid_scheme trimmed starts_with_space ends_with_space is_space has_slash rune_count
open_request_valid = refl

id_valid : validate_uuid_v7 parse "tenant_id" one_id ≡ []
unfolding validate_uuid_v7
id_valid = refl

node_valid : validate_trimmed_string "health.probe.owner_node_id" "node-1" 1 0 ≡ []
unfolding validate_trimmed_string trimmed starts_with_space ends_with_space is_space rune_count
node_valid = refl

free : lookup {V = Cam} one_id [] ≡ none
unfolding lookup
free = refl

not_none : (w : CamCredentialsWrite) → some admin ≡ some w → w.scheme ≢ "none"
not_none w given = λ e. ground (arith, given, e, eq_iff "basic" "none")

create_cam_accepts_example :
    (s' : CamService) × (cam : Cam) × (create_cam parse parse_url 10
        (λ n. ok (ids n))
        request
        service
      ≡ ok (s', cam))
    × (cam.cam_id ≡ one_id)
create_cam_accepts_example =
    create_cam_accepts parse parse_url 10 ids request service (λ e. cc) (λ k. refl) id_valid
      node_valid not_none request_valid free

abbrev camera : Cam
camera =
    new_cam 10 one_id one_id (profile_of one_id main ∷ []) one_id (apply_defaults request) service

abbrev after : CamService
after = record service {
  store = record { cameras = (one_id, camera) ∷ []; creds = (one_id, admin) ∷ [] };
}

created : create_cam parse parse_url 10 (λ n. ok (ids n)) request service ≡ ok (after, camera)
unfolding create_cam create_checked make_cam save_new save make_profiles site_id_of
    validate_cam_write validate_cam apply_defaults validate_identity validate_site validate_labels
    validate_url validate_endpoint valid_transport validate_capabilities validate_uuid_v7
    validate_trimmed_string validate_profile_fields validate_resolution valid_codec
    validate_write_loop validate_write_profiles validate_profile_write validate_credentials_write
    valid_scheme trimmed starts_with_space ends_with_space is_space has_slash rune_count
    validate_probe validate_last_error validate_health valid_status validate_times validate_loop
    validate_profiles validate_profile validate_credentials lookup insert delete
created = refl

find_cam-create_cam_example :
    (validate_cam parse parse_url camera ≡ [])
    × (camera.version ≡ pos 0)
    × (camera.created_at ≡ 10)
    × (camera.updated_at ≡ 10)
    × (camera.tenant_id ≡ one_id)
    × (find_cam one_id service ≡ err cam_not_found)
    × (find_cam one_id after ≡ ok camera)
    × ((other : String) → other ≢ one_id → find_cam other after ≡ find_cam other service)
    × (camera.credentials ≡ stored_credentials one_id request.credentials)
    × ((w : CamCredentialsWrite)
        → request.credentials ≡ some w
        → lookup one_id after.store.creds ≡ some w)
find_cam-create_cam_example =
    find_cam-create_cam parse parse_url 10 (λ n. ok (ids n)) request service after camera created
