-- ===== src/Camera/Validation.antt =====
-- internal/camera/validation.go: the checks of the parts of a camera, and of the whole.
pub mod Endpoint
use cam_server.Base.{
  ℕ, ℤ, pos, negsuc, Bool, true, false, not, ◌&&◌, ◌||◌, Option, none, some, String, List, [], ◌∷◌,
  ◌++◌, ltb, ◌==◌, str_eq, if◌then◌else◌,
}
use cam_server.Camera.Fields.{
  Problem, is_invalid, required, negative, too_long, problem, when, check_range, Uuid,
  validate_uuid_v7, validate_trimmed_string, validate_credentials, validate_credentials_write,
  validate_profiles, validate_write_profiles,
}
use cam_server.Camera.Model.{
  Cam, CamWrite, CamIdentity, CamSite, CamEndpoint, CamCredentials, CamCredentialsWrite,
  CamCapabilities, CamHealth, CamHealthError, HealthProbePointer,
}
use cam_server.Camera.Texts.{rune_count, label_key}

abbrev below_zero : ℤ → Bool
below_zero (pos n) = false
below_zero (negsuc n) = true

-- `CamIdentity.Validate`
unfoldable pub validate_identity : CamIdentity → List Problem
validate_identity i =
    validate_trimmed_string "identity.name" i.name 1 120
    ++ when (ltb 2000 (rune_count i.description)) (too_long "identity.description" 2000)

-- `CamCapabilities.Validate`
unfoldable pub validate_capabilities : CamCapabilities → List Problem
validate_capabilities c = when (ltb 2000 (rune_count c.notes)) (too_long "capabilities.notes" 2000)

-- `EndpointTransport.Valid`
unfoldable pub valid_transport : String → Bool
valid_transport t = str_eq t "tcp" || str_eq t "udp" || str_eq t "auto"

-- `HealthStatus.Valid`
unfoldable pub valid_status : String → Bool
valid_status s =
    str_eq s "unknown" || str_eq s "online" || str_eq s "offline" || str_eq s "degraded"

-- `CamHealthError.Validate`
unfoldable pub validate_health_error : CamHealthError → List Problem
validate_health_error e =
    validate_trimmed_string "health.last_error.code" e.code 1 0
    ++ validate_trimmed_string "health.last_error.message" e.message 1 0
    ++ when (e.observed_at == 0) (required "health.last_error.observed_at")

unfoldable pub validate_labels : List (String × String) → List Problem
validate_labels [] = []
validate_labels ((key, value) ∷ labels) =
    when (not (label_key key)) (is_invalid "site.labels key" key)
    ++ when (ltb 256 (rune_count value)) (too_long key 256)
    ++ validate_labels labels

-- What `url.ParseRequestURI` finds in a text that it accepts.
pub record Url : Type 0 where
  pub url_scheme : String
  pub host : String
  pub has_user : Bool

module _ (parse : String → Option Uuid) (parse_url : String → Option Url) where
  -- `CamSite.Validate`
  unfoldable pub validate_site : CamSite → List Problem
  validate_site s =
      validate_uuid_v7 parse "site.site_id" s.site_id
      ++ (if str_eq s.group_id "" then [] else validate_uuid_v7 parse "site.group_id" s.group_id)
      ++ validate_labels s.labels

  -- The part of `CamEndpoint.Validate` about the URL.
  unfoldable pub validate_url : String → String → List Problem
  validate_url protocol text = elim (parse_url text) [
    | none ↦ problem "endpoint.url must be an absolute URI" ∷ []
    | some u ↦
        if str_eq u.url_scheme "" || str_eq u.host ""
        then problem "endpoint.url must be an absolute URI" ∷ []
        else when (not (str_eq u.url_scheme protocol))
            (problem "endpoint.url scheme must equal endpoint.protocol")
          ++ when u.has_user (problem "endpoint.url must not include userinfo")
  ]

  -- `CamEndpoint.Validate`
  unfoldable pub validate_endpoint : CamEndpoint → List Problem
  validate_endpoint e =
      when (not (str_eq e.protocol "rtsp")) (is_invalid "endpoint.protocol" e.protocol)
      ++ validate_url e.protocol e.url
      ++ when (not (valid_transport e.transport)) (is_invalid "endpoint.transport" e.transport)
      ++ check_range "endpoint.connect_timeout_ms" 1000 30000 e.connect_timeout_ms
      ++ check_range "endpoint.read_timeout_ms" 1000 60000 e.read_timeout_ms

  -- `HealthProbePointer.Validate`
  unfoldable pub validate_probe : HealthProbePointer → List Problem
  validate_probe p =
      validate_uuid_v7 parse "health.probe.probe_id" p.probe_id
      ++ check_range "health.probe.cadence_ms" 5000 600000 p.cadence_ms
      ++ validate_trimmed_string "health.probe.owner_node_id" p.owner_node_id 1 0

  -- The part of `CamHealth.Validate` about the last error.
  unfoldable pub validate_last_error : String → Option CamHealthError → List Problem
  validate_last_error status (some e) = validate_health_error e
  validate_last_error status none =
      when (str_eq status "offline" || str_eq status "degraded") (required "health.last_error")

  -- `CamHealth.Validate`
  unfoldable pub validate_health : CamHealth → List Problem
  validate_health h =
      when (not (valid_status h.status)) (is_invalid "health.status" h.status)
      ++ validate_last_error h.status h.last_error
      ++ validate_probe h.probe
      ++ when (below_zero h.consecutive_failures) (negative "health.consecutive_failures")

  abbrev pub check_credentials : Option CamCredentials → List Problem
  check_credentials none = []
  check_credentials (some c) = validate_credentials c

  abbrev pub check_credentials_write : Option CamCredentialsWrite → List Problem
  check_credentials_write none = []
  check_credentials_write (some c) = validate_credentials_write c

  -- The checks of `Cam.Validate` on the two times.
  unfoldable pub validate_times : ℕ → ℕ → List Problem
  validate_times created_at updated_at =
      when (created_at == 0) (required "created_at")
      ++ when (updated_at == 0) (required "updated_at")
      ++ when (not (created_at == 0) && not (updated_at == 0) && ltb updated_at created_at)
          (problem "updated_at must not be before created_at")

  -- `Cam.Validate`
  unfoldable pub validate_cam : Cam → List Problem
  validate_cam c =
      validate_uuid_v7 parse "cam_id" c.cam_id
      ++ validate_uuid_v7 parse "tenant_id" c.tenant_id
      ++ validate_identity c.identity
      ++ validate_site c.site
      ++ validate_endpoint c.endpoint
      ++ validate_profiles parse c.profiles
      ++ validate_capabilities c.capabilities
      ++ validate_health c.health
      ++ check_credentials c.credentials
      ++ validate_times c.created_at c.updated_at
      ++ when (below_zero c.version) (negative "version")

  -- `CamWrite.Validate`
  unfoldable pub validate_cam_write : CamWrite → List Problem
  validate_cam_write c =
      validate_identity c.identity
      ++ validate_site c.site
      ++ validate_endpoint c.endpoint
      ++ validate_write_profiles c.profiles
      ++ validate_capabilities c.capabilities
      ++ check_credentials_write c.credentials
