-- ===== src/Tests/Control.antt =====
-- A lease, a call that is retried, dependencies and adapters: internal/ha and internal/protocol.
use Prim.Native.String.{◌++◌ as joined}
use cam_server.Base.{
  Result, ◌⊎◌, Option, ℕ, ap, insert, delete, delete_if, Distinct, ◌+◌, ◌*◌, ◌≤◌, ◌≡◌, ◌≢◌, ◌↔◌,
  refl, pos, Bool, true, false, ◌&&◌, none, some, String, List, [], ◌∷◌, ok, arith, lookup, str_eq,
  eq_iff, ◌==◌, if◌then◌else◌,
}
use cam_server.Api.Session.{
  CreateSessionRequest, SessionResponse, Server, MtxPath, session, ensure_stream_ready,
  normalize_create_session_request, create_live_session, reattach_live_session,
}
use cam_server.Api.Session.EndToEnd.{
  session_lease, Routed, reattach_live_session-create_live_session,
}
use cam_server.Api.Session.Ready.{Listed, ensure_stream_ready_iff}
use cam_server.Stream.Fanout.{new_stream}
use cam_server.Stream.Manager.{get_stream}
use cam_server.Ha.Health.{Dependency}
use cam_server.Ha.Lease.{
  Lease, LeaseInput, TokenClaims, second, Codec, LeaseService, issue, reattach, new_lease,
  claims_of, get_lease, parse_token, sign_token, save_lease, gc, renew, reattach_claims,
}
use cam_server.Ha.Lease.Others.{Call, issued, came_back, run_calls, Others, IsStore}
use cam_server.Ha.Lease.Reattach.{reattach_ok, reattach-issue}
use cam_server.Ha.Lease.Signed.{Signed}
use cam_server.Ha.Retry.{retry}
use cam_server.Ha.Retry.Attempts.{Bounded, retry-Bounded}
use cam_server.Protocol.Taxonomy.{
  AdapterMetadata, Registry, int_less, negotiate, new_registry, hls, register_all, register,
  validate, add_adapter, sort_classes, sort_ids, insert_id,
}
use cam_server.Protocol.Taxonomy.Negotiation.{Candidate, negotiate-Candidate}

-- A codec that can encode the claims of one lease.
abbrev one_lease : TokenClaims
one_lease = record { lease_id = "l1"; stream_key = "cam/main"; viewer_id = "v"; iat = 0; exp = 90 }

abbrev is_one_lease : TokenClaims → Bool
is_one_lease c =
    str_eq c.lease_id "l1"
    && str_eq c.stream_key "cam/main"
    && str_eq c.viewer_id "v"
    && c.iat == 0
    && c.exp == 90

encodes_one : (c : TokenClaims) → is_one_lease c ≡ true → one_lease ≡ c
encodes_one c h =
    ground
      (arith, h, eq_iff c.lease_id "l1", eq_iff c.stream_key "cam/main", eq_iff c.viewer_id "v")

one_payload :
    (c : TokenClaims) (payload : String)
    → (if is_one_lease c then some "p" else none) ≡ some payload
    → (is_one_lease c ≡ true) × (payload ≡ "p")
one_payload c payload h = ground (arith, h)

abbrev split_one : String → List String
split_one t = if str_eq t "p.s" then "p" ∷ "s" ∷ [] else []

decodes_one :
    (c : TokenClaims) (payload : String)
    → (if is_one_lease c then some "p" else none) ≡ some payload
    → (if str_eq payload "p" then some one_lease else none) ≡ some c
decodes_one c payload h =
    let (is_it, same) = one_payload c payload h in rw same (ap some (encodes_one c is_it))

splits_one :
    (c : TokenClaims) (payload : String)
    → (if is_one_lease c then some "p" else none) ≡ some payload
    → split_one (joined payload (joined "." "s")) ≡ payload ∷ "s" ∷ []
splits_one c payload h = let (is_it, same) = one_payload c payload h in rw same refl

abbrev codec : Codec
codec = record {
  encode = λ c. if is_one_lease c then some "p" else none;
  decode = λ t. if str_eq t "p" then some one_lease else none;
  signature = λ t. "s";
  split = split_one;
  trim = λ t. t;
  decode-encode = decodes_one;
  split_token = splits_one;
}

abbrev input : LeaseInput
input = record {
  stream_key = "cam/main";
  tenant_id = "";
  device_id = "";
  viewer_id = "v";
  preferred_protocol = "";
  last_known_endpoint = "";
  hls_url = "";
  webrtc_url = "";
  webrtc_offer_url = "";
}

abbrev leases : LeaseService
leases = record { items = []; ttl = 90000000000; skew = 5000000000 }

abbrev lease : Lease
lease = new_lease codec 0 "l1" input leases

signed : sign_token codec (claims_of codec lease) ≡ ok "p.s"
unfolding sign_token
signed = refl

text_apart : (t u : String) → str_eq t u ≡ false → t ≢ u
text_apart t u h e = ground (arith, h, e, eq_iff t u)

reattach-issue_example :
    (s1 : LeaseService) × (s' : LeaseService) × (issue codec 0 "l1" input leases
      ≡ (s1, ok (lease, "p.s")))
    × (reattach codec 0 "p.s" s1 ≡ (s', ok (lease, "p.s")))
    × ((get_lease 0 "l1" s').1 ≡ some lease)
    × (parse_token codec "p.s" ≡ ok one_lease)
reattach-issue_example =
    reattach-issue codec 0 0 "l1" "p.s" "p.s" input leases tt (text_apart "l1" "" refl)
      (text_apart "cam/main" "" refl) signed signed (omega arith) (omega arith) (omega arith)

abbrev stored : LeaseService
stored = record leases { items = ("l1", lease) ∷ [] }

renewed_back : reattach codec 0 "p.s" stored ≡ (stored, ok (lease, "p.s"))
unfolding reattach reattach_claims parse_token get_lease gc renew save_lease sign_token lookup
    insert delete delete_if
renewed_back = refl

stored-Distinct : Distinct stored.items
unfolding lookup
stored-Distinct = (refl, tt)

reattach_ok_example :
    (c : TokenClaims) × (l : Lease) × Signed codec "p.s" c
    × (c.iat * second ≤ 0 + stored.skew)
    × (0 ≤ c.exp * second + stored.skew)
    × (lookup c.lease_id stored.items ≡ some l)
    × (0 ≤ l.expires_at)
    × (l.stream_key ≡ c.stream_key)
    × (l.viewer_id ≡ c.viewer_id)
    × (lease ≡ record l { issued_at = 0; expires_at = 0 + stored.ttl })
    × (sign_token codec (claims_of codec lease) ≡ ok "p.s")
reattach_ok_example =
    reattach_ok codec 0 "p.s" "p.s" lease stored stored stored-Distinct renewed_back

-- A function that fails but for its second call.
abbrev second_time : ℕ → Option String
second_time n = if n == 2 then none else some "refused"

abbrev never_done : ℕ → Option String
never_done n = none

retry-Bounded_example : Bounded second_time never_done 1 3 (retry second_time never_done (pos 0))
retry-Bounded_example = retry-Bounded second_time never_done (pos 0)

abbrev redis : Dependency
redis = record { name = "redis"; required = true; check = some (3, some "refused") }

abbrev one_registry : Registry
one_registry = record {
  by_id = ("delivery.hls", hls) ∷ [];
  ids_by_class = ("delivery", "delivery.hls" ∷ []) ∷ [];
  wire_by_class = ("delivery", ("hls", "delivery.hls") ∷ []) ∷ [];
}

one_made : new_registry (hls ∷ []) ≡ ok one_registry
unfolding new_registry register_all register validate add_adapter sort_classes sort_ids insert_id
    lookup insert delete
one_made = refl

negotiate-Candidate_example :
    ((m : AdapterMetadata)
      → negotiate "delivery" ("hls" ∷ []) one_registry ≡ some m
      → Candidate "delivery" ("hls" ∷ []) one_registry m
        × ((n : AdapterMetadata)
            → Candidate "delivery" ("hls" ∷ []) one_registry n
            → int_less n.priority m.priority ≡ false))
    × ((negotiate "delivery" ("hls" ∷ []) one_registry ≡ none)
        ↔ ((n : AdapterMetadata) → ¬ Candidate "delivery" ("hls" ∷ []) one_registry n))
negotiate-Candidate_example =
    negotiate-Candidate (hls ∷ []) one_registry "delivery" ("hls" ∷ []) one_made

abbrev same : String → String
same t = t

abbrev request : CreateSessionRequest
request = record {
  tenant_id = "";
  device_id = "";
  viewer_id = "v";
  preferred_protocol = "";
  last_known_endpoint = "";
}

abbrev server : Server
server = record {
  manager = record { streams = ("cam/main", new_stream "cam/main") ∷ [] };
  mtx = none;
  ctx_err = λ n. none;
  dependencies = redis ∷ [];
  resolve_live_urls = λ key. record { hls = key; webrtc = ""; webrtc_offer = "" };
}

-- The stream has gone.
abbrev server_later : Server
server_later = record server { manager = record { streams = [] } }

ready : ensure_stream_ready codec same same "cam/main" server ≡ none
unfolding ensure_stream_ready get_stream lookup
ready = refl

session_signed :
    sign_token codec
      (claims_of codec (session_lease codec same same 0 "l1" "cam/main" request server leases))
    ≡ ok "p.s"
unfolding sign_token normalize_create_session_request
session_signed = refl

-- Another viewer gets a lease and one comes with a token that is not valid.
abbrev calls : List Call
calls = issued 1 "l2" input ∷ came_back 2 "x" ∷ []

x_refused : (c : TokenClaims) → parse_token codec "x" ≡ ok c → c.lease_id ≢ "l1"
unfolding parse_token
x_refused c parsed = absurd (ground (arith, parsed))

calls-Others : Others codec "l1" 90000000000 calls
calls-Others = (omega arith, text_apart "l2" "l1" refl, (omega arith, x_refused, tt))

empty-IsStore : IsStore leases.items
unfolding lookup
empty-IsStore = (tt, λ k x there. absurd (ground (arith, there)))

reattach_live_session-create_live_session_example :
    (leases1 : LeaseService) × (leases2 : LeaseService) × (r1 : SessionResponse)
    × (r2 : SessionResponse) × (create_live_session codec same same 0 "l1" "cam/main"
          (some request)
          server
          leases
        ≡ (leases1, session 201 r1))
    × (r1.reattach_token ≡ "p.s")
    × (reattach_live_session codec same same 0
          (some "p.s")
          server_later
          (run_calls codec calls leases1)
        ≡ (leases2, session 200 r2))
    × (r2.session_id ≡ r1.session_id)
    × (r2.stream_key ≡ r1.stream_key)
    × (r2.tenant_id ≡ r1.tenant_id)
    × (r2.device_id ≡ r1.device_id)
    × (r2.viewer_id ≡ r1.viewer_id)
    × (r2.lease_expires_at ≡ 0 + leases.ttl)
    × Routed codec same same r1 r2 server_later
reattach_live_session-create_live_session_example =
    reattach_live_session-create_live_session codec same same 0 0 "l1" "cam/main" "p.s" "p.s"
      request server server_later leases calls empty-IsStore (text_apart "l1" "" refl) refl
      (text_apart "cam/main" "" refl) refl (text_apart "p.s" "" refl) ready session_signed
      session_signed (omega arith) (omega arith) (omega arith) calls-Others

ensure_stream_ready_iff_example :
    (ensure_stream_ready codec same same "cam/main" server_later ≡ none) ↔ (
      (same "cam/main" ≢ "")
      × ((get_stream "cam/main" server_later.manager ≢ none)
          ⊎ ((list_paths : ℕ → Result String (List MtxPath)) × (server_later.mtx ≡ some list_paths)
              × Listed "cam/main" list_paths)))
ensure_stream_ready_iff_example =
    ensure_stream_ready_iff codec same same "cam/main" server_later (λ n. refl)
