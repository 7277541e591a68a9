-- ===== src/Tests/Cameras.antt =====
-- One camera, its profiles and credentials: internal/camera/validation.go.
use cam_server.Base.{
  ◌≡◌, ◌≢◌, ◌↔◌, refl, pos, true, false, Option, none, some, String, List, [], ◌∷◌, All,
}
use cam_server.Camera.Fields.{
  Uuid, validate_uuid_v7, validate_trimmed_string, validate_profile_fields, validate_resolution,
  valid_codec, validate_loop, validate_profiles, validate_profile,
}
use cam_server.Camera.Fields.Profiles.{Unique, defaults, validate_profiles_iff}
use cam_server.Camera.Model.{Cam, CamProfile, CamCredentials}
use cam_server.Camera.Texts.{
  trimmed, starts_with_space, ends_with_space, is_space, has_slash, rune_count,
}
use cam_server.Camera.Validation.{
  Url, validate_identity, validate_site, validate_labels, validate_url, validate_endpoint,
  valid_transport, validate_capabilities, validate_probe, validate_last_error, validate_health,
  valid_status, validate_times, validate_cam,
}

-- A parser that knows one identifier.
abbrev parse : String → Option Uuid
parse value = some (record { version = 7; text = "0190f1d2-0000-7000-8000-000000000001" })

abbrev main : CamProfile
main = record {
  profile_id = "0190f1d2-0000-7000-8000-000000000001";
  name = "main";
  stream_path = "/live";
  codec_hint = "h264";
  resolution_hint = none;
  bitrate_kbps_hint = none;
  framerate_hint = none;
  is_default = true;
}

abbrev profiles : List CamProfile
profiles = main ∷ record main { name = "sub"; is_default = false } ∷ []

validate_profiles_iff_example : (validate_profiles parse profiles ≡ []) ↔ (
    (profiles ≢ [])
    × All (λ p. validate_profile parse p ≡ []) profiles
    × Unique profiles
    × (defaults profiles ≡ 1))
validate_profiles_iff_example = validate_profiles_iff parse profiles

abbrev login : CamCredentials
login = record {
  scheme = "digest";
  username = "admin";
  password_ref = "secret/1";
  rotated_at = none;
}

abbrev parse_url : String → Option Url
parse_url text = some (record { url_scheme = "rtsp"; host = "10.0.0.7"; has_user = false })

abbrev cam : Cam
cam = record {
  cam_id = main.profile_id;
  tenant_id = main.profile_id;
  identity = record {
    name = "door";
    description = "";
    vendor = "";
    model = "";
    serial_number = "";
  };
  site = record { site_id = main.profile_id; group_id = ""; labels = [] };
  endpoint = record {
    protocol = "rtsp";
    url = "rtsp://10.0.0.7/live";
    transport = "tcp";
    connect_timeout_ms = pos 5000;
    read_timeout_ms = pos 15000;
  };
  credentials = none;
  profiles = main ∷ [];
  capabilities = record {
    supports_audio = false;
    supports_ptz = false;
    supports_onvif = true;
    discovered_codecs = [];
    notes = "";
  };
  health = record {
    status = "unknown";
    last_seen_at = none;
    last_error = none;
    probe = record {
      probe_id = main.profile_id;
      cadence_ms = pos 30000;
      last_run_at = none;
      next_run_at = none;
      owner_node_id = "node-1";
    };
    consecutive_failures = pos 0;
  };
  created_at = 10;
  updated_at = 12;
  version = pos 1;
}

cam_accepted : validate_cam parse parse_url cam ≡ []
unfolding validate_cam validate_identity validate_site validate_labels validate_url
    validate_endpoint valid_transport validate_capabilities validate_probe validate_last_error
    validate_health valid_status validate_times validate_uuid_v7 validate_trimmed_string
    validate_profile_fields validate_resolution valid_codec validate_loop validate_profiles
    validate_profile trimmed starts_with_space ends_with_space is_space has_slash rune_count
cam_accepted = refl
