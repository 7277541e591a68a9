-- ===== src/Camera/Validation/Endpoint.antt =====
-- Which endpoints, and which whole cameras, are accepted.
use mathlib.Core.List.{append-eq-nil_iff}
use cam_server.Base.{
  ℕ, ◌≤◌, ◌≡◌, ◌≢◌, ◌↔◌, ◌⊎◌, refl, ℤ, pos, negsuc, Bool, true, false, not, ◌&&◌, Option, some,
  String, [], str_eq, eq_iff, arith, ltb, ◌==◌, inl, inr, Option-cases,
}
use cam_server.Camera.Fields.{Problem, Uuid, when, check_range, outside, validate_profiles}
use cam_server.Camera.Model.{Cam, CamEndpoint}
use cam_server.Camera.Validation.{
  Url, valid_transport, validate_url, validate_endpoint, validate_cam, validate_times,
}

-- A number that is in a range.
abbrev pub Within : ℕ → ℕ → ℤ → Type 0
Within low high (pos n) = (low ≤ n) × (n ≤ high)
Within low high (negsuc n) = ⊥

when_iff : (b : Bool) (p : Problem) → (when b p ≡ []) ↔ (b ≡ false)
when_iff true p = (λ h. cc, λ h. cc)
when_iff false p = (λ h. refl, λ h. refl)

outside_iff : (low high : ℕ) (x : ℤ) → (outside low high x ≡ false) ↔ Within low high x
outside_iff low high (pos n) = (λ h. ground arith, λ h. ground arith)
outside_iff low high (negsuc n) = (λ h. cc, λ h. absurd h)

check_range_iff :
    (field : String) (low high : ℕ) (x : ℤ)
    → (check_range field low high x ≡ []) ↔ Within low high x
check_range_iff field low high x =
    let (to, from) = outside_iff low high x in
    let (to', from') = when_iff (outside low high x) _ in (λ h. to (to' h), λ h. from' (from h))

-- A URL that names the protocol and a host and carries no user.
abbrev pub HasUrl : (String → Option Url) → String → String → Type 0
HasUrl parse_url protocol text =
    (u : Url) × (parse_url text ≡ some u)
    × (u.url_scheme ≢ "")
    × (u.host ≢ "")
    × (u.url_scheme ≡ protocol)
    × (u.has_user ≡ false)

-- What is asked of an endpoint.
pub record IsEndpoint (parse_url : String → Option Url) (e : CamEndpoint) : Type 0 where
  pub is_rtsp : e.protocol ≡ "rtsp"
  pub has_url : HasUrl parse_url e.protocol e.url
  pub transport_known : (e.transport ≡ "tcp") ⊎ (e.transport ≡ "udp") ⊎ (e.transport ≡ "auto")
  pub connect_within : Within 1000 30000 e.connect_timeout_ms
  pub read_within : Within 1000 60000 e.read_timeout_ms

valid_transport_iff :
    (t : String) → (valid_transport t ≡ true) ↔ ((t ≡ "tcp") ⊎ (t ≡ "udp") ⊎ (t ≡ "auto"))
unfolding valid_transport
valid_transport_iff t = (
  λ h. ground (arith, eq_iff t "tcp", eq_iff t "udp", eq_iff t "auto"),
  λ h. ground (arith, eq_iff t "tcp", eq_iff t "udp", eq_iff t "auto"),
)

module _ (parse : String → Option Uuid) (parse_url : String → Option Url) where
  url_checks :
      (protocol text : String) (u : Url)
      → parse_url text ≡ some u
      → (validate_url parse parse_url protocol text ≡ [])
        ↔ ((u.url_scheme ≢ "") × (u.host ≢ "") × (u.url_scheme ≡ protocol) × (u.has_user ≡ false))
  unfolding validate_url
  url_checks protocol text u found =
      let s = eq_iff u.url_scheme "" in
      let h = eq_iff u.host "" in
      let p = eq_iff u.url_scheme protocol in
      (λ good. ground (arith, s, h, p), λ good. ground (arith, s, h, p))

  validate_url_iff :
      (protocol text : String)
      → (validate_url parse parse_url protocol text ≡ []) ↔ HasUrl parse_url protocol text
  unfolding validate_url
  validate_url_iff protocol text = (
    λ good. elim (Option-cases (parse_url text)) [
      | inl e ↦ absurd (ground arith)
      | inr (u, e) ↦ let (a, b, c, d) = (url_checks protocol text u e).0 good in (u, e, a, b, c, d)
    ],
    λ (u, found, a, b, c, d). (url_checks protocol text u found).1 (a, b, c, d),
  )

  -- An endpoint is accepted exactly if its protocol is "rtsp", its URL parses, with the scheme "rtsp",
  -- a host and no user, its transport is "tcp", "udp" or "auto", and its timeouts are from 1000 to
  -- 30000 and from 1000 to 60000 milliseconds.
  pub validate_endpoint_iff :
      (e : CamEndpoint) → (validate_endpoint parse parse_url e ≡ []) ↔ IsEndpoint parse_url e
  unfolding validate_endpoint
  validate_endpoint_iff e = (
    λ good.
        let (front, last) = append-eq-nil_iff.0 good in
        let (front2, connect) = append-eq-nil_iff.0 front in
        let (front3, transport) = append-eq-nil_iff.0 front2 in
        let (protocol, url) = append-eq-nil_iff.0 front3 in
        let known : not (str_eq e.protocol "rtsp") ≡ false = (when_iff _ _).0 protocol in
        let carried : not (valid_transport e.transport) ≡ false = (when_iff _ _).0 transport in
        record {
          is_rtsp = ground (arith, eq_iff e.protocol "rtsp", known);
          has_url = (validate_url_iff e.protocol e.url).0 url;
          transport_known = (valid_transport_iff e.transport).0 (ground (arith, carried));
          connect_within = (check_range_iff _ 1000 30000 e.connect_timeout_ms).0 connect;
          read_within = (check_range_iff _ 1000 60000 e.read_timeout_ms).0 last;
        },
    λ w.
        let protocol : str_eq e.protocol "rtsp" ≡ true =
          ground (arith, eq_iff e.protocol "rtsp", w.is_rtsp) in
        rw
          (
            protocol,
            (validate_url_iff e.protocol e.url).1 w.has_url,
            (valid_transport_iff e.transport).1 w.transport_known,
            (check_range_iff "endpoint.connect_timeout_ms" 1000 30000 e.connect_timeout_ms).1
                w.connect_within,
            (check_range_iff "endpoint.read_timeout_ms" 1000 60000 e.read_timeout_ms).1
                w.read_within,
          )
          refl,
  )

  times_ordered :
      (created_at updated_at : ℕ)
      → validate_times parse parse_url created_at updated_at ≡ []
      → (created_at ≢ 0) × (created_at ≤ updated_at)
  unfolding validate_times
  times_ordered created_at updated_at good =
      let (front, order) = append-eq-nil_iff.0 good in
      let (created, updated) = append-eq-nil_iff.0 front in
      let a : (created_at == 0) ≡ false = (when_iff _ _).0 created in
      let b : (updated_at == 0) ≡ false = (when_iff _ _).0 updated in
      let c : (not (created_at == 0) && not (updated_at == 0) && ltb updated_at created_at)
          ≡ false =
        (when_iff _ _).0 order in
      (ground (arith, a), ground (arith, a, b, c))

  -- A camera that passes `Cam.Validate` has a proper endpoint, profiles that pass, both times set,
  -- and was not updated before it was created.
  pub validate_cam_sound :
      (c : Cam)
      → validate_cam parse parse_url c ≡ []
      → IsEndpoint parse_url c.endpoint
        × (validate_profiles parse c.profiles ≡ [])
        × (c.created_at ≢ 0)
        × (c.created_at ≤ c.updated_at)
  unfolding validate_cam
  validate_cam_sound c good =
      let (h1, version) = append-eq-nil_iff.0 good in
      let (h2, times) = append-eq-nil_iff.0 h1 in
      let (h3, credentials) = append-eq-nil_iff.0 h2 in
      let (h4, health) = append-eq-nil_iff.0 h3 in
      let (h5, capabilities) = append-eq-nil_iff.0 h4 in
      let (h6, profiles) = append-eq-nil_iff.0 h5 in
      let (h7, endpoint) = append-eq-nil_iff.0 h6 in
      let (set, ordered) = times_ordered c.created_at c.updated_at times in
      ((validate_endpoint_iff c.endpoint).0 endpoint, profiles, set, ordered)
