-- ===== src/Relay/Manager/Viewers.antt =====
-- What a viewer with a relay token can rely on.
use cam_server.Base.{
  ℕ, ◌+◌, ◌*◌, ◌/◌, ◌<◌, ◌≤◌, ◌≡◌, refl, true, false, none, some, String, inl, inr, arith, eq_iff,
  str_eq, ok, err, lookup, insert, Distinct, lookup-insert_self, lookup-delete_self,
  lookup-delete_if, Option-cases, Bool-cases,
}
use cam_server.Relay.Manager.{
  Manager, RelayError, token_invalid, id_mismatch, not_found, negotiate, new_session, create,
  verify_and_get, close_session, idle, reap_idle, get_session,
}
use cam_server.Relay.Tokens.{
  Session, active, CreateSessionRequest, CreateSessionResponse, RelayClaims, TokenService,
  claims_of,
}

gone_after_close : (id : String) (m : Manager) → lookup id (close_session id m).0.sessions ≡ none
unfolding close_session
gone_after_close id m = ground (arith, lookup-delete_self id m.sessions)

module _ (tokens : TokenService) where
  open tokens use {sign, verify, verify-sign}

  create_ok :
      (now : ℕ) (req : CreateSessionRequest) (m m' : Manager) (resp : CreateSessionResponse)
      → create tokens now req m ≡ (m', ok resp)
      → (sign (claims_of now (new_session now req m)) ≡ ok resp.token)
        × (m'.sessions
            ≡ insert req.relay_session_id
                (record (new_session now req m) { token = resp.token; state = active })
                m.sessions)
  unfolding create
  create_ok now req m m' resp h = ground arith

  verify_and_get_found :
      (now : ℕ) (signed id : String) (m : Manager) (c : RelayClaims) (sess : Session)
      → verify now signed ≡ some c
      → c.session_id ≡ id
      → lookup id m.sessions ≡ some sess
      → (verify_and_get tokens now signed id m).1 ≡ ok (record sess { last_active_at = now })
  unfolding verify_and_get
  verify_and_get_found now signed id m c sess verified same found =
      let is_same : str_eq c.session_id id ≡ true = ground (arith, eq_iff c.session_id id) in
      rw (verified, verify_and_get, is_same, found) refl

  -- The token of a session that was created opens that session, with the camera and the protocol
  -- that were agreed, until the token's expiry in whole seconds; under every other identifier it is
  -- refused.
  pub verify_and_get-create :
      (now later : ℕ) (req : CreateSessionRequest) (m m' : Manager) (resp : CreateSessionResponse)
      → create tokens now req m ≡ (m', ok resp)
      → later < req.token_expires_at / 1000000000 * 1000000000
      → ((sess : Session) × ((verify_and_get tokens later resp.token req.relay_session_id m').1
            ≡ ok sess)
          × (sess.stream_id ≡ req.stream_id)
          × (sess.cam_id ≡ req.cam_id)
          × (sess.protocol ≡ negotiate req.requested_protocols)
          × (sess.state ≡ active))
        × ((id : String)
            → str_eq req.relay_session_id id ≡ false
            → verify_and_get tokens later resp.token id m' ≡ (m', err id_mismatch))
  unfolding verify_and_get
  verify_and_get-create now later req m m' resp created early =
      let (signed, sessions) = create_ok now req m m' resp created in
      let verified =
        verify-sign (claims_of now (new_session now req m)) resp.token later signed early in
      let held : lookup req.relay_session_id m'.sessions
          ≡ some (record (new_session now req m) { token = resp.token; state = active }) =
        rw sessions (lookup-insert_self req.relay_session_id _ m.sessions) in
      (
        (
          _,
          verify_and_get_found later resp.token req.relay_session_id m' _ _ verified refl held,
          refl,
          refl,
          refl,
          refl,
        ),
        λ id differ. ground (arith, verified),
      )

  refused :
      (now : ℕ) (signed id : String) (m : Manager)
      → lookup id m.sessions ≡ none
      → (e : RelayError) × (verify_and_get tokens now signed id m ≡ (m, err e))
  unfolding verify_and_get
  refused now signed id m gone = elim (Option-cases (verify now signed)) [
    | inl e ↦ (token_invalid, ground arith)
    | inr (c, e) ↦ elim (Bool-cases (str_eq c.session_id id)) [
      | inl same ↦ (not_found, ground arith)
      | inr differ ↦ (id_mismatch, ground arith)
    ]
  ]

  -- A session that was closed is not served any more, whatever token is shown, and the request
  -- changes nothing.
  pub verify_and_get-close_session :
      (now : ℕ) (signed id : String) (m : Manager)
      → (e : RelayError) × (verify_and_get tokens now signed id (close_session id m).0
          ≡ ((close_session id m).0, err e))
  verify_and_get-close_session now signed id m =
      refused now signed id (close_session id m).0 (gone_after_close id m)

-- If no two sessions have one identifier, `ReapIdle` removes exactly the sessions that were last active more than `max_idle` before `now`.
pub get_session-reap_idle :
    (now max_idle : ℕ) (id : String) (m : Manager)
    → Distinct m.sessions
    → ((sess : Session)
        → get_session id m ≡ some sess
        → now ≤ sess.last_active_at + max_idle
        → get_session id (reap_idle now max_idle m) ≡ some sess)
      × ((sess : Session)
          → get_session id (reap_idle now max_idle m) ≡ some sess
          → (get_session id m ≡ some sess) × (now ≤ sess.last_active_at + max_idle))
unfolding get_session reap_idle
get_session-reap_idle now max_idle id m d = (
  λ sess found recent. ground (arith, lookup-delete_if (idle now max_idle) id m.sessions d),
  λ sess found. ground (arith, lookup-delete_if (idle now max_idle) id m.sessions d),
)
