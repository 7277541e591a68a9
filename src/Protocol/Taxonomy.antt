-- ===== src/Protocol/Taxonomy.antt =====
-- internal/protocol/taxonomy.go: adapters, their registry, and the choice of one that a client supports. A
-- class and an identifier are texts, as in Go; `cloneCapabilities` copies, which values need not.
pub mod Sorting
pub mod Listed
pub mod Negotiation
pub mod Defaults
use Prim.Native.Nat.{Ordering}
use Prim.Native.String.{compare}
use cam_server.Base.{
  ℕ, ℤ, pos, negsuc, Bool, true, false, not, ◌&&◌, ◌||◌, String, Option, none, some, List, [], ◌∷◌,
  ◌++◌, map, GoMap, lookup, insert, elem, ltb, str_eq, Result, ok, err, ◌>>=◌, if◌then◌else◌, keys,
}

-- A value of the capabilities' `map[string]any`, of which the code uses two kinds.
pub data Capability : Type 0 where
  text : String → Capability
  flag : Bool → Capability

-- `AdapterMetadata`
pub record AdapterMetadata : Type 0 where
  pub id : String
  pub class : String
  pub wire_name : String
  pub display_name : String
  pub capabilities : GoMap Capability
  pub priority : ℤ

-- `Registry`
pub record Registry : Type 0 where
  pub by_id : GoMap AdapterMetadata
  pub ids_by_class : GoMap (List String)
  pub wire_by_class : GoMap (GoMap String)

pub data ProtocolError : Type 0 where
  id_required : ProtocolError
  class_required : ProtocolError
  class_invalid : String → ProtocolError
  wire_name_required : ProtocolError
  negative_priority : ProtocolError
  wrong_class : String → String → String → ProtocolError
  id_taken : String → ProtocolError
  wire_name_taken : String → String → String → ProtocolError

-- `classByID`
abbrev pub class_by_id : GoMap String
class_by_id =
    ("ingest.rtsp", "ingest")
    ∷ ("control.http", "control")
    ∷ ("internal_transport.relay_flv", "internal_transport")
    ∷ ("internal_transport.grpc_stream", "internal_transport")
    ∷ ("delivery.webrtc", "delivery")
    ∷ ("delivery.hls", "delivery")
    ∷ ("restream.rtsp", "restream")
    ∷ ("storage.recorder", "storage")
    ∷ ("storage.object_storage", "storage")
    ∷ []

-- `validClasses`
abbrev pub valid_classes : List String
valid_classes =
    "ingest" ∷ "control" ∷ "internal_transport" ∷ "delivery" ∷ "restream" ∷ "storage" ∷ []

abbrev is_negative : ℤ → Bool
is_negative (pos n) = false
is_negative (negsuc n) = true

abbrev check_class : AdapterMetadata → Option String → Option ProtocolError
check_class m none = none
check_class m (some expected) =
    if str_eq expected m.class then none else some (wrong_class m.id expected m.class)

-- `AdapterMetadata.Validate`; `none` is nil.
unfoldable pub validate : AdapterMetadata → Option ProtocolError
validate m =
    if str_eq m.id ""
    then some id_required
    else if str_eq m.class ""
    then some class_required
    else if not (elem m.class valid_classes)
    then some (class_invalid m.class)
    else if str_eq m.wire_name ""
    then some wire_name_required
    else if is_negative m.priority
    then some negative_priority
    else check_class m (lookup m.id class_by_id)

-- `m[k]` of a map of lists or of maps, where a missing key gives the empty one.
abbrev pub or_empty {ℓ} : {A : Type ℓ} → Option (List A) → List A
or_empty none = []
or_empty (some xs) = xs

-- `register` behind its checks.
unfoldable pub add_adapter : AdapterMetadata → Registry → Registry
add_adapter m r = record {
  by_id = insert m.id m r.by_id;
  ids_by_class =
      insert m.class (or_empty (lookup m.class r.ids_by_class) ++ m.id ∷ []) r.ids_by_class;
  wire_by_class =
      insert m.class (insert m.wire_name m.id (or_empty (lookup m.class r.wire_by_class)))
        r.wire_by_class;
}

-- `register`
unfoldable pub register : AdapterMetadata → Registry → Result ProtocolError Registry
register m r = elim (validate m) [
  | some why ↦ err why
  | none ↦ elim (lookup m.id r.by_id) [
    | some _ ↦ err (id_taken m.id)
    | none ↦ elim (lookup m.wire_name (or_empty (lookup m.class r.wire_by_class))) [
      | some existing ↦ err (wire_name_taken m.wire_name m.class existing)
      | none ↦ ok (add_adapter m r)
    ]
  ]
]

-- The loop over the adapters.
unfoldable pub register_all : List AdapterMetadata → Registry → Result ProtocolError Registry
register_all [] r = ok r
register_all (m ∷ ms) r = register m r >>= (λ next. register_all ms next)

-- `left < right` of two integers, and of two texts.
unfoldable pub int_less : ℤ → ℤ → Bool
int_less (pos a) (pos b) = ltb a b
int_less (pos a) (negsuc b) = false
int_less (negsuc a) (pos b) = true
int_less (negsuc a) (negsuc b) = ltb b a

abbrev pub text_less : String → String → Bool
text_less s t = elim (compare s t) [ Ordering.lt ↦ true | _ ↦ false ]

-- The comparison of `NewRegistry`.
unfoldable pub less : AdapterMetadata → AdapterMetadata → Bool
less a b =
    if int_less a.priority b.priority || int_less b.priority a.priority
    then int_less a.priority b.priority
    else text_less a.id b.id

abbrev pub no_adapter : AdapterMetadata
no_adapter = record {
  id = "";
  class = "";
  wire_name = "";
  display_name = "";
  capabilities = [];
  priority = pos 0;
}

-- `r.byID[id]`
abbrev pub or_none : Option AdapterMetadata → AdapterMetadata
or_none none = no_adapter
or_none (some m) = m

abbrev pub fetch : GoMap AdapterMetadata → String → AdapterMetadata
fetch by_id id = or_none (lookup id by_id)

-- `sort.SliceStable`, of which only the order of the result matters, by insertion.
unfoldable pub insert_id : GoMap AdapterMetadata → String → List String → List String
insert_id by_id x [] = x ∷ []
insert_id by_id x (y ∷ ys) =
    let rest = insert_id by_id x ys in
    if less (fetch by_id y) (fetch by_id x) then y ∷ rest else x ∷ y ∷ ys

unfoldable pub sort_ids : GoMap AdapterMetadata → List String → List String
sort_ids by_id [] = []
sort_ids by_id (x ∷ xs) = insert_id by_id x (sort_ids by_id xs)

-- The loop over the classes.
unfoldable pub sort_classes : GoMap AdapterMetadata → GoMap (List String) → GoMap (List String)
sort_classes by_id [] = []
sort_classes by_id ((class, ids) ∷ rest) = (class, sort_ids by_id ids) ∷ sort_classes by_id rest

abbrev pub empty_registry : Registry
empty_registry = record { by_id = []; ids_by_class = []; wire_by_class = [] }

-- `NewRegistry`
unfoldable pub new_registry : List AdapterMetadata → Result ProtocolError Registry
new_registry ms = do
  r ← register_all ms empty_registry
  ok (record r { ids_by_class = sort_classes r.by_id r.ids_by_class })

-- `IDsForClass`
unfoldable pub ids_for_class : String → Registry → List String
ids_for_class class r = or_empty (lookup class r.ids_by_class)

-- `AdaptersForClass`
unfoldable pub adapters_for_class : String → Registry → List AdapterMetadata
adapters_for_class class r = map (fetch r.by_id) (or_empty (lookup class r.ids_by_class))

-- `SupportedWireNames`
unfoldable pub supported_wire_names : String → Registry → List String
supported_wire_names class r = map (λ m. m.wire_name) (adapters_for_class class r)

-- `LookupWire`
unfoldable pub lookup_wire : String → String → Registry → Option AdapterMetadata
lookup_wire class wire_name r = elim (lookup wire_name (or_empty (lookup class r.wire_by_class))) [
  | none ↦ none
  | some id ↦ lookup id r.by_id
]

-- The set that `Negotiate` makes of the client's list.
unfoldable pub supported : List String → List String
supported [] = []
supported (p ∷ ps) = let rest = supported ps in if str_eq p "" then rest else p ∷ rest

abbrev pub supports : List String → AdapterMetadata → Bool
supports set m = elem m.wire_name set || elem m.id set

-- The loop of `Negotiate`.
unfoldable pub first_supported : List String → List AdapterMetadata → Option AdapterMetadata
first_supported set [] = none
first_supported set (m ∷ ms) =
    let rest = first_supported set ms in if supports set m then some m else rest

-- `Negotiate`; `none` is `UnsupportedProtocolError`.
unfoldable pub negotiate : String → List String → Registry → Option AdapterMetadata
negotiate class client r = first_supported (supported client) (adapters_for_class class r)

-- `NegotiateDelivery`
unfoldable pub negotiate_delivery : List String → Registry → Option AdapterMetadata
negotiate_delivery client r = negotiate "delivery" client r

abbrev adapter : String → String → String → String → GoMap Capability → ℕ → AdapterMetadata
adapter id class wire_name display_name capabilities priority = record {
  id = id;
  class = class;
  wire_name = wire_name;
  display_name = display_name;
  capabilities = capabilities;
  priority = pos priority;
}

abbrev playback : GoMap Capability
playback = ("reconnect", flag true) ∷ ("supports_audio", flag false) ∷ []

abbrev pub webrtc : AdapterMetadata
webrtc = adapter "delivery.webrtc" "delivery" "webrtc" "WebRTC delivery" playback 10

abbrev pub hls : AdapterMetadata
hls = adapter "delivery.hls" "delivery" "hls" "HLS delivery" playback 20

-- `DefaultAdapters`
abbrev pub default_adapters : List AdapterMetadata
default_adapters =
    adapter "ingest.rtsp" "ingest" "rtsp" "RTSP ingest" (("source", text "camera") ∷ []) 10
    ∷ adapter "control.http" "control" "http" "HTTP control" (("orchestration", flag true) ∷ []) 10
    ∷ adapter "internal_transport.relay_flv" "internal_transport" "relay_flv" "Relay FLV"
        (("service_to_service", flag true) ∷ []) 10
    ∷ webrtc
    ∷ hls
    ∷ adapter "restream.rtsp" "restream" "rtsp" "RTSP restream" (("machine_egress", flag true) ∷ [])
        10
    ∷ adapter "storage.recorder" "storage" "recorder" "Recorder storage"
        (("persistence", flag true) ∷ []) 10
    ∷ []

-- `DefaultRegistry`
unfoldable pub default_registry : Result ProtocolError Registry
default_registry = new_registry default_adapters
