-- ===== src/Lib.antt =====
-- cam_server: a model of the camera server, with the theorems that make its core correct.
--
-- The program ingests camera streams, fans each out to subscribers (live viewers, recorders, HLS,
-- object storage, other nodes), serves users with roles and tokens, and makes requests of the control
-- plane idempotent. Packets flow from a publisher through `Ingest` into the buffer of a stream, from
-- which one pump hands them to the subscribers; a node pulls a stream of another node as FLV tags.
--
-- Which file models which part, with paths from the root of the repository:
--   Base               maps, sets, integers, results and lists as Go has them; no program code
--   Stream/Packet      internal/stream/types.go: `AVPacket` and the packet types
--   Stream/Pool        internal/stream/types.go: `NewAVPacket`, `Retain`, `Release`
--   Stream/Fanout      internal/stream/fanout.go: `liveStream`
--   Stream/Manager     internal/stream/manager.go: the streams by their keys
--   Stream/Engine      internal/stream/engine.go and internal/stream/key.go
--   Subscriber/Defs    internal/subscriber/livestream.go, and the channel that storage.go, hls.go,
--                      minio.go and relay.go there have in common
--   Flv/Writer         internal/flv/writer.go
--   Flv/Reader         internal/flv/reader.go, and the loop of `RelayManager.pull` in
--                      internal/node/relay.go that reads a pulled stream
--   Ha/Idempotency     internal/ha/idempotency.go: the store, and the goroutines in `Do`
--   Ha/Lease           internal/ha/lease.go, with the store in memory
--   Ha/Retry           `Retry` of internal/ha/retry.go
--   Ha/Health          internal/ha/health.go
--   Auth/Store         internal/auth/store.go: users and session tokens
--   Auth/Rbac          internal/auth/rbac_store.go: `InMemRBACStore`
--   Auth/Service       internal/auth/service.go and `Issue` of internal/auth/jwt.go
--   Camera             internal/camera/model.go and internal/camera/validation.go
--   Camera/Store       internal/camera/store.go
--   Camera/Service     internal/camera/service.go
--   Relay              internal/relay/manager.go, with the types of model.go and token.go there
--   Node               internal/node/selector.go
--   Protocol/Taxonomy  internal/protocol/taxonomy.go
--   Api/Session        internal/api/session.go: the handlers of a viewer's session
--   Rtsp/Frames        internal/rtsp/ingester.go: the builders of FLV bodies
--   Rtsp/Callbacks     the same file: the callbacks that turn access units into packets
--   Rtsp/Sessions      the same file: `IngestManager`, and the goroutines that run `ingest`
--   Tests              concrete inputs for the theorems
-- The children of these files are named for what they prove.
--
-- State and concurrency. A Go map is an association list without duplicate keys, and the order in
-- which Go visits a map is the order of the list. What a lock protects is one step. A packet is known
-- by its address; its count is a number modulo 2^32. An entry of the idempotency store is known by an
-- address too, and its channel is open or closed; closing one twice is the panic `none`. Times are
-- numbers of nanoseconds that the caller passes, and the zero time of a camera is 0.
--
-- The orders in which the goroutines of `ingest` may run are lists of actions. A call of `EnsureStream`
-- takes what the rest of the process does in the meantime as an argument.
--
-- Fuel. The eviction loop gets as many rounds as there are entries, since each round removes one. The
-- loop that reads tags gets one round more than there are packets. The loop that waits for a stream
-- gets 101 rounds, since it pauses for 50 ms in each and gives up after 5 s.
--
-- Parameters. The JWT library and bcrypt are the record `Crypto`: a signed token verifies to its claims
-- until its expiry in whole seconds, and the malformed hash that stands for a missing user matches no
-- password. The relay's tokens are the record `TokenService`, with the same promise about expiry. An
-- `io.Writer` is the record `Writer`: a write without an error has appended its bytes.
-- `uuid.Parse` and `url.ParseRequestURI` are functions that the camera checks take.
-- The JSON, base64 and HMAC libraries of a lease's token are the record `Codec`.
-- The results of RTSP clients and RTP decoders, new identifiers, password hashes and the results of
-- producers and of callbacks are arguments.
--
-- Not modelled: the other HTTP handlers, Redis, logging and tracing, which are glue or input and output;
-- the clients of ONVIF, MediaMTX, MinIO and WebRTC; the ranking of streams and the delays of a retry,
-- which are floating point numbers; the segments of HLS and the bookkeeping of pulled streams.
pub mod Base
pub mod Stream
pub mod Subscriber
pub mod Flv
pub mod Ha
pub mod Auth
pub mod Relay
pub mod Node
pub mod Camera
pub mod Api
pub mod Protocol
pub mod Rtsp
pub mod Tests
