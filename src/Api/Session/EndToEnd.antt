-- ===== src/Api/Session/EndToEnd.antt =====
-- A session that is created and comes back, through both handlers.
use cam_server.Base.{
  ℕ, ◌+◌, ◌*◌, ◌/◌, ◌≤◌, ◌≡◌, ◌≢◌, refl, sym, ◌∙◌, String, none, some, eq_iff, ok, arith, List,
}
use cam_server.Api.Session.{
  CreateSessionRequest, SessionResponse, session, ReadyError, Server, ensure_stream_ready,
  normalize_create_session_request, build_session_response, lease_input, issue_session,
  create_live_session, reattached, reattach_live_session,
}
use cam_server.Ha.Health.{snapshot}
use cam_server.Ha.Lease.{
  Lease, Codec, LeaseService, second, sign_token, claims_of, new_lease, issue, reattach,
}
use cam_server.Ha.Lease.Others.{Call, run_calls, Others, IsStore}
use cam_server.Ha.Lease.Return.{reattach-issue-Others}
use cam_server.Ha.Lease.Reattach.{renewed}

module _ (codec : Codec) (trim_slashes lower : String → String) where
  open codec use {trim}

  -- The lease that the creation of a session makes.
  abbrev pub session_lease :
      ℕ → String → String → CreateSessionRequest → Server → LeaseService → Lease
  session_lease now id key req s leases =
      new_lease codec now id
        (lease_input codec trim_slashes lower key
          (normalize_create_session_request codec trim_slashes lower req key) s)
        leases

  create_live_session_ok :
      (now : ℕ) (id key token : String) (req : CreateSessionRequest) (s : Server)
      (leases leases' : LeaseService)
      → trim key ≡ key
      → key ≢ ""
      → ensure_stream_ready codec trim_slashes lower key s ≡ none
      → issue codec now id
          (lease_input codec trim_slashes lower key
            (normalize_create_session_request codec trim_slashes lower req key)
            s)
          leases
        ≡ (leases', ok (session_lease now id key req s leases, token))
      → create_live_session codec trim_slashes lower now id key (some req) s leases ≡ (
        leases',
        session 201 (
            build_session_response codec trim_slashes lower
              (session_lease now id key req s leases)
              token
              (snapshot now s.dependencies).mode
              "live"
              ""),
      )
  unfolding create_live_session issue_session
  create_live_session_ok now id key token req s leases leases' trimmed set ready issued =
      ground (arith, trimmed, set, ready, issued, eq_iff key "")

  reattach_live_session_ok :
      (now : ℕ) (token token' : String) (l : Lease) (s : Server) (leases leases' : LeaseService)
      → trim token ≡ token
      → token ≢ ""
      → reattach codec now token leases ≡ (leases', ok (l, token'))
      → reattach_live_session codec trim_slashes lower now (some token) s leases
        ≡ (leases', session 200 (reattached codec trim_slashes lower now l token' s))
  unfolding reattach_live_session
  reattach_live_session_ok now token token' l s leases leases' trimmed set back =
      ground (arith, trimmed, set, back, eq_iff token "")

  -- What the response says of the route.
  abbrev pub Routed : SessionResponse → SessionResponse → Server → Type 0
  Routed first r s =
      (ensure_stream_ready codec trim_slashes lower r.stream_key s ≡ none
        → (r.route_status ≡ "live") × (r.urls ≡ s.resolve_live_urls r.stream_key))
      × ((why : ReadyError)
          → ensure_stream_ready codec trim_slashes lower r.stream_key s ≡ some why
          → (r.route_status ≡ "last_known") × (r.urls ≡ first.urls))

  routed :
      (now : ℕ) (l : Lease) (token token' : String) (s s0 : Server) (at : ℕ)
      → Routed
          (build_session_response codec trim_slashes lower l token
            (snapshot at s0.dependencies).mode
            "live"
            "")
          (reattached codec trim_slashes lower now l token' s)
          s
  unfolding reattached build_session_response
  routed now l token token' s s0 at =
      (λ ready. ground (arith, ready), λ why not_ready. ground (arith, not_ready))

  reattached-fields :
      (now : ℕ) (l : Lease) (token : String) (s : Server)
      → let r = reattached codec trim_slashes lower now l token s in
        (r.session_id ≡ l.id)
        × (r.stream_key ≡ l.stream_key)
        × (r.tenant_id ≡ l.tenant_id)
        × (r.device_id ≡ l.device_id)
        × (r.viewer_id ≡ l.viewer_id)
        × (r.lease_expires_at ≡ l.expires_at)
  unfolding reattached build_session_response
  reattached-fields now l token s =
      (ground arith, ground arith, ground arith, ground arith, ground arith, ground arith)

  -- A viewer who creates a session for a stream that is ready, without an idempotency key, gets the status
  -- 201 and a token with which a later request to come back succeeds with the status 200, whatever
  -- streams, dependencies and URLs the server has by then, and after any calls of the lease service, not
  -- later than the lease's expiry, that issue leases under other identifiers or come with tokens for other
  -- leases: at any time that is not, but for the skew, before the creation or behind the token's expiry in
  -- whole seconds, and not behind the lease's own expiry. The session, stream, tenant, device and viewer are
  -- the same, and the lease runs from the later time on. The route is "live", with the URLs of that time,
  -- exactly if the stream is ready then; otherwise it is "last_known", with the URLs of the first response.
  -- The claims can be encoded, the new identifier, the key and the token are not empty, the key and the
  -- token have no space around them, and in the store no two leases have one identifier and each stands
  -- under its own.
  pub reattach_live_session-create_live_session :
      (now later : ℕ) (id key token token' : String) (req : CreateSessionRequest) (s s2 : Server)
      (leases : LeaseService) (calls : List Call)
      → IsStore leases.items
      → id ≢ ""
      → trim key ≡ key
      → key ≢ ""
      → trim token ≡ token
      → token ≢ ""
      → ensure_stream_ready codec trim_slashes lower key s ≡ none
      → sign_token codec (claims_of codec (session_lease now id key req s leases)) ≡ ok token
      → sign_token codec
          (claims_of codec (renewed codec later leases.ttl (session_lease now id key req s leases)))
        ≡ ok token'
      → now ≤ later + leases.skew
      → later ≤ (now + leases.ttl) / second * second + leases.skew
      → later ≤ now + leases.ttl
      → Others codec id (now + leases.ttl) calls
      → (leases1 : LeaseService) × (leases2 : LeaseService) × (r1 : SessionResponse)
        × (r2 : SessionResponse) × (create_live_session codec trim_slashes lower now id key
              (some req)
              s
              leases
            ≡ (leases1, session 201 r1))
        × (r1.reattach_token ≡ token)
        × (reattach_live_session codec trim_slashes lower later
              (some token)
              s2
              (run_calls codec calls leases1)
            ≡ (leases2, session 200 r2))
        × (r2.session_id ≡ r1.session_id)
        × (r2.stream_key ≡ r1.stream_key)
        × (r2.tenant_id ≡ r1.tenant_id)
        × (r2.device_id ≡ r1.device_id)
        × (r2.viewer_id ≡ r1.viewer_id)
        × (r2.lease_expires_at ≡ later + leases.ttl)
        × Routed r1 r2 s2
  unfolding build_session_response
  reattach_live_session-create_live_session now later id key token token' req s s2 leases calls h
        named trimmed set token_trimmed token_set ready signed signed' early late fresh others =
      let l = session_lease now id key req s leases in
      let l2 = renewed codec later leases.ttl l in
      let input =
        lease_input codec trim_slashes lower key
          (normalize_create_session_request codec trim_slashes lower req key) s in
      let keyed : trim key ≢ "" = λ e. set (sym trimmed ∙ e) in
      let fields = reattached-fields later l2 token' s2 in
      let (leases1, leases2, issued, back) =
        reattach-issue-Others codec now later id token token' input leases calls h named keyed
          signed signed' early late fresh others in
      (
        leases1,
        leases2,
        build_session_response codec trim_slashes lower l token (snapshot now s.dependencies).mode
            "live" "",
        reattached codec trim_slashes lower later l2 token' s2,
        create_live_session_ok now id key token req s leases leases1 trimmed set ready issued,
        refl,
        reattach_live_session_ok later token token' l2 s2 (run_calls codec calls leases1) leases2
            token_trimmed token_set back,
        fields.0,
        fields.1,
        fields.2,
        fields.3,
        fields.4,
        fields.5,
        routed later l2 token token' s2 s now,
      )
