-- ===== src/Subscriber/Defs.antt =====
-- internal/subscriber/livestream.go with its GOP cache, and the buffer that storage.go, hls.go,
-- minio.go and relay.go share. `Deliver` owns one reference to the packet that it is given.
use cam_server.Base.{
  ℕ, ◌+◌, ◌-◌, ◌%◌, Bool, false, List, [], ◌∷◌, ◌++◌, String, ltb, ◌==◌, length, take, drop,
  if◌then◌else◌,
}
use cam_server.Stream.Packet.{AvPacket, packet_video}
use cam_server.Stream.Pool.{Pool, retain, release, release_all}

-- `SubscriberType`
pub data SubscriberType : Type 0 where
  livestream storage minio hls relay : SubscriberType

-- `SubscriberType.String`
unfoldable pub type_string : SubscriberType → String
type_string livestream = "livestream"
type_string storage = "storage"
type_string minio = "minio"
type_string hls = "hls"
type_string relay = "relay"

-- `gopCacheMax`
abbrev pub gop_cache_max : ℕ
gop_cache_max = 256

-- `LivestreamSubscriber`
pub record Livestream : Type 0 where
  pub gop : List ℕ
  pub live_dropped : ℕ  -- uint64

-- A subscriber with a channel, and whether the goroutine `run` still reads from it. `run` ends
-- early where a directory or a file cannot be made.
pub record Buffered : Type 0 where
  pub kind : SubscriberType
  pub capacity : ℕ
  pub queue : List ℕ
  pub dropped : ℕ  -- uint64
  pub running : Bool

pub data Subscriber : Type 0 where
  live : Livestream → Subscriber
  buffered : Buffered → Subscriber

-- `storageBufSize` and `hlsBufSize`
abbrev pub storage_buf_size : ℕ
storage_buf_size = 512

abbrev pub hls_buf_size : ℕ
hls_buf_size = 256

-- `dropped.Add(1)`
abbrev pub bump : ℕ → ℕ
bump n = (n + 1) % 18446744073709551616

module _ (info : ℕ → AvPacket) where
  -- The branch of `updateGOP` that comes before the append: a video keyframe empties the cache.
  unfoldable pub start_group : ℕ → List ℕ → Pool → List ℕ × Pool
  start_group p gop pool =
      if (info p).packet_type == packet_video
      then if (info p).is_keyframe then ([], release_all gop pool) else (gop, pool)
      else (gop, pool)

  -- The end of `updateGOP`: the oldest packets beyond the bound go.
  unfoldable pub cut_group : List ℕ → Pool → List ℕ × Pool
  cut_group gop pool =
      let cut = length gop - gop_cache_max in
      if ltb 0 cut then (drop cut gop, release_all (take cut gop) pool) else (gop, pool)

  -- `updateGOP`
  unfoldable pub update_gop : ℕ → List ℕ → Pool → List ℕ × Pool
  update_gop p gop pool =
      let (gop1, pool1) = start_group p gop pool in cut_group (gop1 ++ p ∷ []) (retain p pool1)

  -- `Deliver`; `sent` tells whether the callback `onPkt` returned no error, and `room` is the
  -- `select` on the channel.
  unfoldable pub deliver : Bool → ℕ → Subscriber → Pool → Subscriber × Pool
  deliver sent p (live s) pool =
      let (gop', pool') = update_gop p s.gop pool in
      (
        live (record {
          gop = gop';
          live_dropped = if sent then s.live_dropped else bump s.live_dropped;
        }),
        release p pool',
      )
  deliver sent p (buffered s) pool =
      if ltb (length s.queue) s.capacity
      then (buffered (record s { queue = s.queue ++ p ∷ [] }), pool)
      else (buffered (record s { dropped = bump s.dropped }), release p pool)

-- The references that a subscriber holds.
unfoldable pub held : Subscriber → List ℕ
held (live s) = s.gop
held (buffered s) = s.queue

-- The goroutine takes a packet from the channel, writes it and releases it.
unfoldable pub consume : Buffered → Pool → Buffered × Pool
consume s pool = elim s.queue [
  | [] ↦ (s, pool)
  | p ∷ rest ↦ if s.running then (record s { queue = rest }, release p pool) else (s, pool)
]

-- The goroutine ends: its deferred loop releases what is in the channel.
unfoldable pub finish_run : Buffered → Pool → Buffered × Pool
finish_run s pool =
    if s.running
    then (record s { queue = []; running = false }, release_all s.queue pool)
    else (s, pool)

-- `Close`: of a livestream the cache is released; of the others the goroutine is told to end, which
-- releases its channel if it still runs.
unfoldable pub close : Subscriber → Pool → Subscriber × Pool
close (live s) pool = (live (record s { gop = [] }), release_all s.gop pool)
close (buffered s) pool = let (s', pool') = finish_run s pool in (buffered s', pool')
