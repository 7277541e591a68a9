-- ===== src/Relay/Manager.antt =====
-- internal/relay/manager.go: the registry of sessions.
pub mod Viewers
use Prim.Native.String.{◌++◌ as joined}
use cam_server.Base.{
  ℕ, ◌+◌, Bool, true, false, not, ◌||◌, Option, none, some, String, List, [], ◌∷◌, ltb, str_eq,
  length, Result, ok, err, GoMap, lookup, insert, delete, delete_if, if◌then◌else◌,
}
use cam_server.Relay.Tokens.{
  SessionState, creating, active, closed, Session, CreateSessionRequest, CreateSessionResponse,
  RelayClaims, TokenService, issue,
}

-- `Manager`, with its sessions and its base URL.
pub record Manager : Type 0 where
  pub sessions : GoMap Session
  pub base_url : String

pub data RelayError : Type 0 where
  issue_failed : String → RelayError
  token_invalid id_mismatch not_found : RelayError

-- The loop of `Create` over the requested protocols.
unfoldable pub negotiate : List String → String
negotiate [] = "hls"
negotiate (p ∷ ps) = if str_eq p "webrtc" || str_eq p "hls" then p else negotiate ps

abbrev pub endpoint_of : String → String → String → String
endpoint_of base proto id = joined base (joined "/relay/live/" (joined proto (joined "/" id)))

-- The session that `Create` makes, before it has a token.
abbrev pub new_session : ℕ → CreateSessionRequest → Manager → Session
new_session now req m =
    let proto = negotiate req.requested_protocols in
    record {
      relay_session_id = req.relay_session_id;
      stream_id = req.stream_id;
      cam_id = req.cam_id;
      profile_id = req.profile_id;
      protocol = proto;
      endpoint = endpoint_of m.base_url proto req.relay_session_id;
      token = "";
      token_expires_at = req.token_expires_at;
      created_at = now;
      last_active_at = now;
      state = creating;
    }

module _ (tokens : TokenService) where
  -- `Create`
  unfoldable pub create :
      ℕ → CreateSessionRequest → Manager → Manager × Result RelayError CreateSessionResponse
  create now req m =
      let sess = new_session now req m in
      elim (issue tokens now sess) [
        | err e ↦ (m, err (issue_failed e))
        | ok signed ↦
            let stored = record sess { token = signed; state = active } in
            (
              record m { sessions = insert sess.relay_session_id stored m.sessions },
              ok (record {
                relay_session_id = sess.relay_session_id;
                protocol = sess.protocol;
                endpoint = sess.endpoint;
                token = signed;
              }),
            )
      ]

  -- `VerifyAndGetSession`
  unfoldable pub verify_and_get :
      ℕ → String → String → Manager → Manager × Result RelayError Session
  verify_and_get now signed id m = elim (tokens.verify now signed) [
    | none ↦ (m, err token_invalid)
    | some claims ↦
        if not (str_eq claims.session_id id)
        then (m, err id_mismatch)
        else elim (lookup id m.sessions) [
          | none ↦ (m, err not_found)
          | some sess ↦
              let touched = record sess { last_active_at = now } in
              (record m { sessions = insert id touched m.sessions }, ok touched)
        ]
  ]

-- `Close`, with the session as a holder of its address then sees it.
unfoldable pub close_session : String → Manager → Manager × Option Session
close_session id m = elim (lookup id m.sessions) [
  | none ↦ (m, none)
  | some sess ↦
      (record m { sessions = delete id m.sessions }, some (record sess { state = closed }))
]

-- `Get`
unfoldable pub get_session : String → Manager → Option Session
get_session id m = lookup id m.sessions

-- `ActiveCount`
unfoldable pub active_sessions : Manager → ℕ
active_sessions m = length m.sessions

-- `s.LastActiveAt.Before(now.Add(-maxIdle))`
abbrev pub idle : ℕ → ℕ → Session → Bool
idle now max_idle s = ltb (s.last_active_at + max_idle) now

-- `ReapIdle`
unfoldable pub reap_idle : ℕ → ℕ → Manager → Manager
reap_idle now max_idle m = record m { sessions = delete_if (idle now max_idle) m.sessions }
