-- ===== src/Api/Session.antt =====
-- internal/api/session.go: the session of a viewer, from the lease that it is created with to the requests by
-- which the viewer comes back to it. A body that was decoded is an argument, and a response is a status
-- with what would be written as JSON.
pub mod Ready
pub mod EndToEnd
use cam_server.Base.{
  ℕ, ℤ, pos, Bool, true, false, ◌&&◌, ◌||◌, String, Option, none, some, List, [], ◌∷◌, str_eq,
  is_some, Result, ok, err, if◌then◌else◌,
}
use cam_server.Ha.Health.{Dependency, HealthMode, snapshot}
use cam_server.Ha.Lease.{
  Lease, LeaseInput, LeaseError, invalid_token, lease_expired, lease_missing, not_encoded, Codec,
  LeaseService, issue, reattach,
}
use cam_server.Ha.Retry.{retry}
use cam_server.Stream.Manager.{StreamManager, get_stream}

-- `createSessionRequest`
pub record CreateSessionRequest : Type 0 where
  pub tenant_id : String
  pub device_id : String
  pub viewer_id : String
  pub preferred_protocol : String
  pub last_known_endpoint : String

-- `sessionURLs`
pub record SessionUrls : Type 0 where
  pub hls : String
  pub webrtc : String
  pub webrtc_offer : String

-- `sessionResponse`, but for the constant retry policy.
pub record SessionResponse : Type 0 where
  pub session_id : String
  pub stream_key : String
  pub tenant_id : String
  pub device_id : String
  pub viewer_id : String
  pub route_status : String
  pub mode : HealthMode
  pub control_plane_backend : String
  pub issued_at : ℕ
  pub lease_expires_at : ℕ
  pub reattach_token : String
  pub urls : SessionUrls
  pub warning : String

-- What a handler writes.
pub data Response : Type 0 where
  error : ℕ → Response
  session : ℕ → SessionResponse → Response

pub data ReadyError : Type 0 where
  stream_not_found : ReadyError
  list_failed : String → ReadyError
  context_done : String → ReadyError

-- A path that MediaMTX lists.
pub record MtxPath : Type 0 where
  pub name : String
  pub ready : Bool

-- What a request finds of the rest of the server: the streams, the listings of MediaMTX by their number, where
-- there is a client, the context's error behind each of them, the dependencies, and the URLs that
-- `resolveLiveURLs` gives for a key.
pub record Server : Type 0 where
  pub manager : StreamManager
  pub mtx : Option (ℕ → Result String (List MtxPath))
  pub ctx_err : ℕ → Option ReadyError
  pub dependencies : List Dependency
  pub resolve_live_urls : String → SessionUrls

unfoldable pub any_ready : String → List MtxPath → Bool
any_ready key [] = false
any_ready key (p ∷ ps) = (str_eq p.name key && p.ready) || any_ready key ps

-- The function that `ensureStreamReady` retries; `none` is nil.
unfoldable pub check_paths : String → Result String (List MtxPath) → Option ReadyError
check_paths key (err why) = some (list_failed why)
check_paths key (ok paths) = if any_ready key paths then none else some stream_not_found

-- `normalizeLabelValue`
abbrev pub normalize_label_value : (String → String) → String → String → String
normalize_label_value trim v fallback = if str_eq (trim v) "" then fallback else trim v

module _ (codec : Codec) (trim_slashes lower : String → String) where
  open codec use {trim}

  -- `ensureStreamReady`; `none` is nil.
  unfoldable pub ensure_stream_ready : String → Server → Option ReadyError
  ensure_stream_ready stream_key s =
      let key = trim_slashes (trim stream_key) in
      if str_eq key ""
      then some stream_not_found
      else if is_some (get_stream key s.manager)
      then none
      else elim s.mtx [
        | none ↦ some stream_not_found
        | some list_paths ↦ (retry (λ n. check_paths key (list_paths n)) s.ctx_err (pos 3)).0
      ]

  -- The choice of the protocol in `normalizeCreateSessionRequest`.
  abbrev preferred : String → String
  preferred p = if str_eq p "hls" || str_eq p "webrtc" then p else "hls"

  -- `normalizeCreateSessionRequest`
  unfoldable pub normalize_create_session_request :
      CreateSessionRequest → String → CreateSessionRequest
  normalize_create_session_request req stream_key = record {
    tenant_id = normalize_label_value trim req.tenant_id "default";
    device_id =
        normalize_label_value trim (if str_eq req.device_id "" then stream_key else req.device_id)
          stream_key;
    viewer_id = normalize_label_value trim req.viewer_id "anonymous";
    preferred_protocol = preferred (lower (trim req.preferred_protocol));
    last_known_endpoint = trim req.last_known_endpoint;
  }

  -- `buildSessionResponse`
  unfoldable pub build_session_response :
      Lease → String → HealthMode → String → String → SessionResponse
  build_session_response l token mode route_status warning = record {
    session_id = l.id;
    stream_key = l.stream_key;
    tenant_id = l.tenant_id;
    device_id = l.device_id;
    viewer_id = l.viewer_id;
    route_status = route_status;
    mode = mode;
    control_plane_backend = l.control_plane_backend;
    issued_at = l.issued_at;
    lease_expires_at = l.expires_at;
    reattach_token = token;
    urls = record { hls = l.hls_url; webrtc = l.webrtc_url; webrtc_offer = l.webrtc_offer_url };
    warning = warning;
  }

  -- The input of the lease in `issueSession`.
  abbrev pub lease_input : String → CreateSessionRequest → Server → LeaseInput
  lease_input key req s =
      let urls = s.resolve_live_urls key in
      record {
        stream_key = key;
        tenant_id = req.tenant_id;
        device_id = req.device_id;
        viewer_id = req.viewer_id;
        preferred_protocol = req.preferred_protocol;
        last_known_endpoint = req.last_known_endpoint;
        hls_url = urls.hls;
        webrtc_url = urls.webrtc;
        webrtc_offer_url = urls.webrtc_offer;
      }

  -- `issueSession`, with a new identifier for the lease, as the producer of a request without an
  -- idempotency key.
  unfoldable pub issue_session :
      ℕ → String → String → CreateSessionRequest → Server → LeaseService → LeaseService × Response
  issue_session now id key req s leases =
      let (leases', issued) = issue codec now id (lease_input key req s) leases in
      elim issued [
        | err why ↦ (leases', error 500)
        | ok (l, token) ↦ (
          leases',
          session 201 (build_session_response l token (snapshot now s.dependencies).mode "live" ""),
        )
      ]

  abbrev ready_status : ReadyError → ℕ
  ready_status stream_not_found = 404
  ready_status (list_failed why) = 502
  ready_status (context_done why) = 502

  -- `createLiveSession`, of a request without an idempotency key; `none` is a body that cannot be decoded.
  unfoldable pub create_live_session :
      ℕ
      → String
      → String
      → Option CreateSessionRequest
      → Server
      → LeaseService
      → LeaseService × Response
  create_live_session now id key_param body s leases =
      let key = trim key_param in
      if str_eq key "" then (leases, error 400) else elim body [
        | none ↦ (leases, error 400)
        | some req ↦ elim (ensure_stream_ready key s) [
          | some why ↦ (leases, error (ready_status why))
          | none ↦ issue_session now id key (normalize_create_session_request req key) s leases
        ]
      ]

  -- The status of an error of `Reattach`.
  abbrev pub lease_status : LeaseError → ℕ
  lease_status invalid_token = 401
  lease_status lease_expired = 410
  lease_status lease_missing = 404
  lease_status not_encoded = 500

  -- The response of `reattachLiveSession` for a lease that was renewed.
  unfoldable pub reattached : ℕ → Lease → String → Server → SessionResponse
  reattached now l token s =
      let mode = (snapshot now s.dependencies).mode in
      elim (ensure_stream_ready l.stream_key s) [
        | none ↦ record (build_session_response l token mode "live" "") {
          urls = s.resolve_live_urls l.stream_key;
        }
        | some why ↦
            build_session_response l token mode "last_known"
              "stream not currently routable, using last known endpoint"
      ]

  -- `reattachLiveSession`; `none` is a body that cannot be decoded.
  unfoldable pub reattach_live_session :
      ℕ → Option String → Server → LeaseService → LeaseService × Response
  reattach_live_session now none s leases = (leases, error 400)
  reattach_live_session now (some reattach_token) s leases =
      let token = trim reattach_token in
      if str_eq token ""
      then (leases, error 400)
      else let (leases', result) = reattach codec now token leases in
        elim result [
          | err why ↦ (leases', error (lease_status why))
          | ok (l, renewed) ↦ (leases', session 200 (reattached now l renewed s))
        ]
