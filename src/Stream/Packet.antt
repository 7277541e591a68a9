-- ===== src/Stream/Packet.antt =====
-- internal/stream/types.go: the media unit that flows through the pipeline.
use cam_server.Base.{ℕ, Bool, List}

-- A `[]byte`, by the values of its bytes.
abbrev pub Bytes : Type 0
Bytes = List ℕ

-- `AVPacket` without its reference count, which Stream/Pool.antt keeps.
pub record AvPacket : Type 0 where
  pub packet_type : ℕ  -- uint8
  pub timestamp : ℕ  -- uint32, milliseconds
  pub is_keyframe : Bool
  pub payload : Bytes  -- Data

-- `PacketAudio`, `PacketVideo` and `PacketMeta`
abbrev pub packet_audio : ℕ
packet_audio = 0x08

abbrev pub packet_video : ℕ
packet_video = 0x09

abbrev pub packet_meta : ℕ
packet_meta = 0x12
