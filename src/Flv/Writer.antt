-- ===== src/Flv/Writer.antt =====
-- internal/flv/writer.go: the file header and the serialisation of one tag.
use cam_server.Base.{ℕ, ◌+◌, ◌/◌, ◌%◌, ◌≡◌, Option, none, some, String, [], ◌∷◌, ◌++◌, length}
use cam_server.Stream.Packet.{Bytes, AvPacket}

-- An `io.Writer`: what `Write` does to its state, and the error that it returns. A `Write` that
-- returns no error has written all its bytes.
pub record Writer : Type 1 where
  pub State : Type 0
  pub write : State → Bytes → State × Option String
  pub written : State → Bytes
  pub write_appends :
      (w : State) (bs : Bytes) → (write w bs).1 ≡ none → written (write w bs).0 ≡ written w ++ bs

-- `byte(x)`
unfoldable pub byte : ℕ → ℕ
byte x = x % 256

-- `fileHeader`
abbrev pub file_header : Bytes
file_header =
    b'F' ∷ b'L' ∷ b'V' ∷ 0x01 ∷ 0x05 ∷ 0x00 ∷ 0x00 ∷ 0x00 ∷ 0x09 ∷ 0x00 ∷ 0x00 ∷ 0x00 ∷ 0x00 ∷ []

-- The eleven bytes `hdr` of `WriteTag`; a shift to the right by 8, 16 or 24 is a division.
unfoldable pub tag_header : ℕ → ℕ → ℕ → Bytes
unfolding byte
tag_header packet_type data_len ts =
    byte packet_type
    ∷ byte (data_len / 65536)
    ∷ byte (data_len / 256)
    ∷ byte data_len
    ∷ byte (ts / 65536)
    ∷ byte (ts / 256)
    ∷ byte ts
    ∷ byte (ts / 16777216)
    ∷ 0
    ∷ 0
    ∷ 0
    ∷ []

-- `binary.BigEndian.PutUint32` of `uint32(11+dataLen)`
unfoldable pub prev_tag_size : ℕ → Bytes
unfolding byte
prev_tag_size data_len =
    let n = (11 + data_len) % 4294967296 in
    byte (n / 16777216) ∷ byte (n / 65536) ∷ byte (n / 256) ∷ byte n ∷ []

-- `if _, err := …; err != nil { return err }`
abbrev pub and_then {ℓ} :
    {S : Type ℓ} → S × Option String → (S → S × Option String) → S × Option String
and_then (w, none) rest = rest w
and_then (w, some e) rest = (w, some e)

module _ (io : Writer) where
  open io use {State, write}

  unfoldable pub write_file_header : State → State × Option String
  write_file_header w = write w file_header

  -- Each of the three writes returns early on an error.
  unfoldable pub write_tag : State → AvPacket → State × Option String
  write_tag w pkt =
      let data_len = length pkt.payload in
      and_then (write w (tag_header pkt.packet_type data_len pkt.timestamp))
        λ w1. and_then (write w1 pkt.payload) λ w2. write w2 (prev_tag_size data_len)

-- The bytes of a whole tag.
unfoldable pub tag_bytes : AvPacket → Bytes
tag_bytes pkt =
    tag_header pkt.packet_type (length pkt.payload) pkt.timestamp
    ++ (pkt.payload ++ prev_tag_size (length pkt.payload))
