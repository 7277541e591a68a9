-- ===== src/Tests/Viewers.antt =====
-- One relay session: internal/relay/manager.go.
use cam_server.Base.{
  ℕ, ◌+◌, ◌<◌, ◌≤◌, ◌*◌, ◌/◌, ◌≡◌, refl, false, Option, none, some, String, [], ◌∷◌, Result, ok,
  err, ltb, ◌==◌, str_eq, eq_iff, arith, Distinct, lookup, insert, delete, if◌then◌else◌,
}
use cam_server.Relay.Manager.{
  Manager, RelayError, id_mismatch, negotiate, create, verify_and_get, close_session, get_session,
  reap_idle,
}
use cam_server.Relay.Manager.Viewers.{
  verify_and_get-create, verify_and_get-close_session, get_session-reap_idle,
}
use cam_server.Relay.Tokens.{
  Session, active, CreateSessionRequest, CreateSessionResponse, RelayClaims, TokenService,
}

abbrev request : CreateSessionRequest
request = record {
  relay_session_id = "s1";
  stream_id = "st1";
  cam_id = "c1";
  profile_id = "p1";
  requested_protocols = "rtsp" ∷ "webrtc" ∷ [];
  token_expires_at = 5000000000;
}

abbrev claims : RelayClaims
claims = record {
  id = "s1";
  expires_at = 5000000000;
  issued_at = 7;
  session_id = "s1";
  stream_id = "st1";
  cam_id = "c1";
  protocol = "webrtc";
}

-- A service that signs these claims only.
abbrev sign_one : RelayClaims → Result String String
sign_one c =
    if str_eq c.id "s1"
    then if str_eq c.session_id "s1"
      then if str_eq c.stream_id "st1"
        then if str_eq c.cam_id "c1"
          then if str_eq c.protocol "webrtc"
            then if c.issued_at == 7
              then if c.expires_at == 5000000000 then ok "signed" else err "no key"
              else err "no key"
            else err "no key"
          else err "no key"
        else err "no key"
      else err "no key"
    else err "no key"

abbrev verify_one : ℕ → String → Option RelayClaims
verify_one now signed =
    if str_eq signed "signed" then if ltb now 5000000000 then some claims else none else none

verify-sign_one :
    (c : RelayClaims) (signed : String) (now : ℕ)
    → sign_one c ≡ ok signed
    → now < c.expires_at / 1000000000 * 1000000000
    → verify_one now signed ≡ some c
verify-sign_one c signed now h early = ground (
  arith,
  eq_iff c.id "s1",
  eq_iff c.session_id "s1",
  eq_iff c.stream_id "st1",
  eq_iff c.cam_id "c1",
  eq_iff c.protocol "webrtc",
  eq_iff signed "signed",
)

abbrev tokens : TokenService
tokens = record { sign = sign_one; verify = verify_one; verify-sign = verify-sign_one }

abbrev empty : Manager
empty = record { sessions = []; base_url = "http://relay" }

abbrev response : CreateSessionResponse
response = record {
  relay_session_id = "s1";
  protocol = "webrtc";
  endpoint = "http://relay/relay/live/webrtc/s1";
  token = "signed";
}

abbrev opened : Manager
opened = (create tokens 7 request empty).0

created : create tokens 7 request empty ≡ (opened, ok response)
unfolding create negotiate
created = refl

verify_and_get-create_example :
    ((sess : Session) × ((verify_and_get tokens 100 "signed" "s1" opened).1 ≡ ok sess)
      × (sess.stream_id ≡ "st1")
      × (sess.cam_id ≡ "c1")
      × (sess.protocol ≡ negotiate ("rtsp" ∷ "webrtc" ∷ []))
      × (sess.state ≡ active))
    × ((id : String)
        → str_eq "s1" id ≡ false
        → verify_and_get tokens 100 "signed" id opened ≡ (opened, err id_mismatch))
verify_and_get-create_example =
    verify_and_get-create tokens 7 100 request empty opened response created (omega arith)

verify_and_get-close_session_example :
    (e : RelayError) × (verify_and_get tokens 100 "signed" "s1" (close_session "s1" opened).0
      ≡ ((close_session "s1" opened).0, err e))
verify_and_get-close_session_example = verify_and_get-close_session tokens 100 "signed" "s1" opened

opened-Distinct : Distinct opened.sessions
unfolding create negotiate lookup insert delete
opened-Distinct = (refl, tt)

get_session-reap_idle_example :
    ((sess : Session)
      → get_session "s1" opened ≡ some sess
      → 50 ≤ sess.last_active_at + 60
      → get_session "s1" (reap_idle 50 60 opened) ≡ some sess)
    × ((sess : Session)
        → get_session "s1" (reap_idle 50 60 opened) ≡ some sess
        → (get_session "s1" opened ≡ some sess) × (50 ≤ sess.last_active_at + 60))
get_session-reap_idle_example = get_session-reap_idle 50 60 "s1" opened opened-Distinct
