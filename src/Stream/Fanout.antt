-- ===== src/Stream/Fanout.antt =====
-- internal/stream/fanout.go: one stream, with the packets that wait for its pump and the
-- subscribers that the pump hands them to. The locks make each operation atomic.
pub mod Pumped
pub mod Balance
pub mod Leak
pub mod Dropped
use cam_server.Base.{
  ℕ, zero, suc, ◌+◌, ◌%◌, Bool, true, false, Option, none, some, List, [], ◌∷◌, ◌++◌, String, ltb,
  length, GoMap, lookup, insert, delete, if◌then◌else◌,
}
use cam_server.Stream.Packet.{AvPacket}
use cam_server.Stream.Pool.{Pool, retain, release}
use cam_server.Subscriber.Defs
use cam_server.Subscriber.Defs.{Subscriber, deliver}

-- `ingestBufSize`
abbrev pub ingest_buf_size : ℕ
ingest_buf_size = 64

-- `liveStream`
pub record LiveStream : Type 0 where
  pub key : String
  pub subs : GoMap Subscriber
  pub ingest : List ℕ
  pub closed : Bool
  pub packets_total : ℕ  -- uint64

-- `newLiveStream`
abbrev pub new_stream : String → LiveStream
new_stream key = record { key = key; subs = []; ingest = []; closed = false; packets_total = 0 }

-- `IsLive`
unfoldable pub is_live : LiveStream → Bool
is_live s = if s.closed then false else true

-- `Ingest`: a packet that finds the stream closed or the buffer full is dropped.
unfoldable pub ingest_packet : ℕ → LiveStream → Pool → LiveStream × Pool
ingest_packet p s pool =
    if s.closed
    then (s, pool)
    else if ltb (length s.ingest) ingest_buf_size
    then (record s { ingest = s.ingest ++ p ∷ [] }, pool)
    else (s, pool)

module _ (info : ℕ → AvPacket) (sent : String → ℕ → Bool) where
  -- The loop of `pump` over the subscribers. `sent` tells which callbacks return no error.
  unfoldable pub fan_out : ℕ → GoMap Subscriber → Pool → GoMap Subscriber × Pool
  fan_out p [] pool = ([], pool)
  fan_out p ((id, sub) ∷ subs) pool =
      let (sub', pool1) = deliver info (sent id p) p sub (retain p pool) in
      let (subs', pool2) = fan_out p subs pool1 in ((id, sub') ∷ subs', pool2)

  -- The pump takes a packet. After `Close` it has ended.
  unfoldable pub pump : LiveStream → Pool → LiveStream × Pool
  pump s pool = elim s.ingest [
    | [] ↦ (s, pool)
    | p ∷ rest ↦
        if s.closed
        then (s, pool)
        else let (subs', pool') = fan_out p s.subs pool in
          (
            record s {
              subs = subs';
              ingest = rest;
              packets_total = (s.packets_total + 1) % 18446744073709551616;
            },
            release p pool',
          )
  ]

-- `AddSubscriber`, for a subscriber with this identifier.
unfoldable pub add_subscriber : String → Subscriber → LiveStream → LiveStream
add_subscriber id sub s = record s { subs = insert id sub s.subs }

-- `RemoveSubscriber`
unfoldable pub remove_subscriber : String → LiveStream → Pool → LiveStream × Pool
remove_subscriber id s pool = elim (lookup id s.subs) [
  | none ↦ (s, pool)
  | some sub ↦ let (_, pool') = Defs.close sub pool in (record s { subs = delete id s.subs }, pool')
]

unfoldable pub close_all : GoMap Subscriber → Pool → Pool
close_all [] pool = pool
close_all ((id, sub) ∷ subs) pool = let (_, pool') = Defs.close sub pool in close_all subs pool'

-- `Close`
unfoldable pub close : LiveStream → Pool → LiveStream × Pool
unfolding close_all
close s pool =
    if s.closed then (s, pool) else (record s { closed = true; subs = [] }, close_all s.subs pool)
