-- ===== src/Ha/Lease.antt =====
-- internal/ha/lease.go: the leases of viewers' sessions, with the store in memory, and the tokens by which a
-- viewer comes back to one. Times are nanoseconds, those in a token seconds. The service and its store
-- read one time in a call.
pub mod Signed
pub mod Reattach
pub mod Others
pub mod Return
use Prim.Native.String.{◌++◌ as joined}
use cam_server.Base.{
  ℕ, ◌+◌, ◌*◌, ◌/◌, ◌≡◌, Bool, true, false, not, ◌||◌, Option, none, some, String, List, [], ◌∷◌,
  GoMap, lookup, insert, delete_if, ltb, str_eq, Result, ok, err, ◌>>=◌, if◌then◌else◌,
}

-- `Lease`
pub record Lease : Type 0 where
  pub id : String
  pub stream_key : String
  pub tenant_id : String
  pub device_id : String
  pub viewer_id : String
  pub preferred_protocol : String
  pub last_known_endpoint : String
  pub hls_url : String
  pub webrtc_url : String
  pub webrtc_offer_url : String
  pub issued_at : ℕ
  pub expires_at : ℕ
  pub control_plane_backend : String

-- `LeaseInput`
pub record LeaseInput : Type 0 where
  pub stream_key : String
  pub tenant_id : String
  pub device_id : String
  pub viewer_id : String
  pub preferred_protocol : String
  pub last_known_endpoint : String
  pub hls_url : String
  pub webrtc_url : String
  pub webrtc_offer_url : String

-- `tokenClaims`
pub record TokenClaims : Type 0 where
  pub lease_id : String
  pub stream_key : String
  pub viewer_id : String
  pub iat : ℕ
  pub exp : ℕ

pub data LeaseError : Type 0 where
  invalid_token : LeaseError
  lease_expired : LeaseError
  lease_missing : LeaseError
  not_encoded : LeaseError

-- encoding/json with base64, which may fail to encode, crypto/hmac with the service's secret, and strings.Split
-- at "." and TrimSpace. What was encoded is decoded, and neither part of a token has a dot.
pub record Codec : Type 0 where
  pub encode : TokenClaims → Option String
  pub decode : String → Option TokenClaims
  pub signature : String → String
  pub split : String → List String
  pub trim : String → String
  pub decode-encode :
      (c : TokenClaims) (payload : String) → encode c ≡ some payload → decode payload ≡ some c
  pub split_token :
      (c : TokenClaims) (payload : String)
      → encode c ≡ some payload
      → split (joined payload (joined "." (signature payload))) ≡ payload ∷ signature payload ∷ []

abbrev pub second : ℕ
second = 1000000000

-- `LeaseService` with the map of its `memoryLeaseStore`.
pub record LeaseService : Type 0 where
  pub items : GoMap Lease
  pub ttl : ℕ
  pub skew : ℕ

-- `gcLocked`
unfoldable pub gc : ℕ → GoMap Lease → GoMap Lease
gc now items = delete_if (λ l. ltb l.expires_at now) items

-- `memoryLeaseStore.Save`
unfoldable pub save_lease : ℕ → Lease → LeaseService → LeaseService
save_lease now l s = record s { items = gc now (insert l.id l s.items) }

-- `memoryLeaseStore.Get`
unfoldable pub get_lease : ℕ → String → LeaseService → LeaseService × Option Lease
get_lease now id s = (record s { items = gc now s.items }, lookup id (gc now s.items))

module _ (codec : Codec) where
  open codec use {encode, decode, signature, split, trim}

  -- `signToken`
  unfoldable pub sign_token : TokenClaims → Result LeaseError String
  sign_token c = elim (encode c) [
    | none ↦ err not_encoded
    | some payload ↦ ok (joined payload (joined "." (signature payload)))
  ]

  abbrev pub check_claims : Option TokenClaims → Result LeaseError TokenClaims
  check_claims none = err invalid_token
  check_claims (some c) =
      if str_eq c.lease_id "" || str_eq c.stream_key "" then err invalid_token else ok c

  -- `parseToken`
  unfoldable pub parse_token : String → Result LeaseError TokenClaims
  parse_token raw = elim (split raw) [
    | payload ∷ rest ↦ elim rest [
      | mac ∷ more ↦ elim more [
        | [] ↦
            if str_eq (signature payload) mac
            then check_claims (decode payload)
            else err invalid_token
        | x ∷ xs ↦ err invalid_token
      ]
      | [] ↦ err invalid_token
    ]
    | [] ↦ err invalid_token
  ]

  -- The claims of a lease.
  abbrev pub claims_of : Lease → TokenClaims
  claims_of l = record {
    lease_id = l.id;
    stream_key = l.stream_key;
    viewer_id = l.viewer_id;
    iat = l.issued_at / second;
    exp = l.expires_at / second;
  }

  abbrev or_hls : String → String
  or_hls p = if str_eq p "" then "hls" else p

  -- The lease that `Issue` makes, with a new identifier.
  abbrev pub new_lease : ℕ → String → LeaseInput → LeaseService → Lease
  new_lease now id input s = record {
    id = id;
    stream_key = trim input.stream_key;
    tenant_id = trim input.tenant_id;
    device_id = trim input.device_id;
    viewer_id = trim input.viewer_id;
    preferred_protocol = or_hls (trim input.preferred_protocol);
    last_known_endpoint = trim input.last_known_endpoint;
    hls_url = trim input.hls_url;
    webrtc_url = trim input.webrtc_url;
    webrtc_offer_url = trim input.webrtc_offer_url;
    issued_at = now;
    expires_at = now + s.ttl;
    control_plane_backend = "memory";
  }

  -- The lease with its token, once it is stored.
  abbrev pub with_token : Lease → Result LeaseError (Lease × String)
  with_token l = sign_token (claims_of l) >>= (λ token. ok (l, token))

  -- `Issue`
  unfoldable pub issue :
      ℕ → String → LeaseInput → LeaseService → LeaseService × Result LeaseError (Lease × String)
  issue now id input s = let l = new_lease now id input s in (save_lease now l s, with_token l)

  -- `now.Before(issuedAt.Add(-skew)) || now.After(expiresAt.Add(skew))`
  abbrev outside_window : ℕ → ℕ → TokenClaims → Bool
  outside_window now skew c = ltb (now + skew) (c.iat * second) || ltb (c.exp * second + skew) now

  -- `Reattach` behind the lookup.
  unfoldable pub renew :
      ℕ → TokenClaims → Lease → LeaseService → LeaseService × Result LeaseError (Lease × String)
  renew now c l s =
      if not (str_eq l.stream_key c.stream_key) || not (str_eq l.viewer_id c.viewer_id)
      then (s, err invalid_token)
      else if ltb (l.expires_at + s.skew) now
      then (s, err lease_expired)
      else let l' : Lease = record l { issued_at = now; expires_at = now + s.ttl } in
        (save_lease now l' s, with_token l')

  -- `Reattach` behind the token.
  unfoldable pub reattach_claims :
      ℕ → TokenClaims → LeaseService → LeaseService × Result LeaseError (Lease × String)
  reattach_claims now c s =
      if outside_window now s.skew c
      then (s, err lease_expired)
      else let (s', found) = get_lease now c.lease_id s in
        elim found [ none ↦ (s', err lease_missing) | some l ↦ renew now c l s' ]

  -- `Reattach`
  unfoldable pub reattach :
      ℕ → String → LeaseService → LeaseService × Result LeaseError (Lease × String)
  reattach now token s = elim (parse_token token) [
    | err why ↦ (s, err why)
    | ok c ↦ reattach_claims now c s
  ]
