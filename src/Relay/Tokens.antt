-- ===== src/Relay/Tokens.antt =====
-- internal/relay/model.go and internal/relay/token.go: a session and the token that is signed for it.
use cam_server.Base.{ℕ, ◌/◌, ◌*◌, ◌<◌, ◌≡◌, Option, some, String, List, Result, ok}

-- `SessionState`
pub data SessionState : Type 0 where
  creating active draining closed : SessionState

-- `Session`; its protocol is a text.
pub record Session : Type 0 where
  pub relay_session_id : String
  pub stream_id : String
  pub cam_id : String
  pub profile_id : String
  pub protocol : String
  pub endpoint : String
  pub token : String
  pub token_expires_at : ℕ
  pub created_at : ℕ
  pub last_active_at : ℕ
  pub state : SessionState

-- `CreateSessionRequest`
pub record CreateSessionRequest : Type 0 where
  pub relay_session_id : String
  pub stream_id : String
  pub cam_id : String
  pub profile_id : String
  pub requested_protocols : List String
  pub token_expires_at : ℕ

-- `CreateSessionResponse`
pub record CreateSessionResponse : Type 0 where
  pub relay_session_id : String
  pub protocol : String
  pub endpoint : String
  pub token : String

-- `relayTokenClaims`
pub record RelayClaims : Type 0 where
  pub id : String
  pub expires_at : ℕ
  pub issued_at : ℕ
  pub session_id : String
  pub stream_id : String
  pub cam_id : String
  pub protocol : String

-- github.com/golang-jwt/jwt with the secret of the gateway: a signed token is accepted, with the
-- claims that were signed, until its expiry, which it holds in whole seconds.
pub record TokenService : Type 0 where
  pub sign : RelayClaims → Result String String
  pub verify : ℕ → String → Option RelayClaims
  pub verify-sign :
      (c : RelayClaims) (signed : String) (now : ℕ)
      → sign c ≡ ok signed
      → now < c.expires_at / 1000000000 * 1000000000
      → verify now signed ≡ some c

-- The claims that `TokenService.Issue` signs.
abbrev pub claims_of : ℕ → Session → RelayClaims
claims_of now s = record {
  id = s.relay_session_id;
  expires_at = s.token_expires_at;
  issued_at = now;
  session_id = s.relay_session_id;
  stream_id = s.stream_id;
  cam_id = s.cam_id;
  protocol = s.protocol;
}

-- `TokenService.Issue`
abbrev pub issue : TokenService → ℕ → Session → Result String String
issue tokens now s = tokens.sign (claims_of now s)
