-- ===== src/Camera/Model.antt =====
-- internal/camera/model.go: the camera aggregate and what a client may write of it. A time is 0 where
-- Go has the zero time; a pointer is an option.
use cam_server.Base.{ℕ, ℤ, Bool, Option, String, List}

-- `CamIdentity`
pub record CamIdentity : Type 0 where
  pub name : String
  pub description : String
  pub vendor : String
  pub model : String
  pub serial_number : String

-- `CamSite`
pub record CamSite : Type 0 where
  pub site_id : String
  pub group_id : String
  pub labels : List (String × String)

-- `CamEndpoint`; its protocol and its transport are texts, which may be none of the constants.
pub record CamEndpoint : Type 0 where
  pub protocol : String
  pub url : String
  pub transport : String
  pub connect_timeout_ms : ℤ
  pub read_timeout_ms : ℤ

-- `CamCredentials`
pub record CamCredentials : Type 0 where
  pub scheme : String
  pub username : String
  pub password_ref : String
  pub rotated_at : Option ℕ

-- `CamCredentialsWrite`
pub record CamCredentialsWrite : Type 0 where
  pub scheme : String
  pub username : String
  pub password : String

-- `ResolutionHint`
pub record ResolutionHint : Type 0 where
  pub width : ℤ
  pub height : ℤ

-- `CamProfileWrite`
pub record CamProfileWrite : Type 0 where
  pub name : String
  pub stream_path : String
  pub codec_hint : String
  pub resolution_hint : Option ResolutionHint
  pub bitrate_kbps_hint : Option ℤ
  pub framerate_hint : Option ℤ
  pub is_default : Bool

-- `CamProfile`
pub record CamProfile : Type 0 where
  pub profile_id : String
  pub name : String
  pub stream_path : String
  pub codec_hint : String
  pub resolution_hint : Option ResolutionHint
  pub bitrate_kbps_hint : Option ℤ
  pub framerate_hint : Option ℤ
  pub is_default : Bool

-- `CamCapabilities`
pub record CamCapabilities : Type 0 where
  pub supports_audio : Bool
  pub supports_ptz : Bool
  pub supports_onvif : Bool
  pub discovered_codecs : List String
  pub notes : String

-- `CamHealthError`
pub record CamHealthError : Type 0 where
  pub code : String
  pub message : String
  pub observed_at : ℕ

-- `HealthProbePointer`
pub record HealthProbePointer : Type 0 where
  pub probe_id : String
  pub cadence_ms : ℤ
  pub last_run_at : Option ℕ
  pub next_run_at : Option ℕ
  pub owner_node_id : String

-- `CamHealth`
pub record CamHealth : Type 0 where
  pub status : String
  pub last_seen_at : Option ℕ
  pub last_error : Option CamHealthError
  pub probe : HealthProbePointer
  pub consecutive_failures : ℤ

-- `Cam`
pub record Cam : Type 0 where
  pub cam_id : String
  pub tenant_id : String
  pub identity : CamIdentity
  pub site : CamSite
  pub endpoint : CamEndpoint
  pub credentials : Option CamCredentials
  pub profiles : List CamProfile
  pub capabilities : CamCapabilities
  pub health : CamHealth
  pub created_at : ℕ
  pub updated_at : ℕ
  pub version : ℤ

-- `CamWrite`
pub record CamWrite : Type 0 where
  pub identity : CamIdentity
  pub site : CamSite
  pub endpoint : CamEndpoint
  pub credentials : Option CamCredentialsWrite
  pub profiles : List CamProfileWrite
  pub capabilities : CamCapabilities
