-- ===== src/Flv/Reader.antt =====
-- internal/flv/reader.go: the file header check and the reading of one tag, and the loop of
-- internal/node/relay.go that reads until an error.
use cam_server.Base.{
  ℕ, zero, suc, ◌+◌, ◌*◌, ◌/◌, Bool, false, ◌&&◌, ◌==◌, Option, none, some, [], ◌∷◌, if◌then◌else◌,
}
use cam_server.Stream.Packet.{Bytes, AvPacket, packet_video}

-- The errors of `io.ReadFull`.
pub data ReadError : Type 0 where
  eof unexpected_eof : ReadError

-- Where `NewReader` and `Next` fail.
pub data FlvError : Type 0 where
  file_header : ReadError → FlvError
  bad_magic : FlvError
  tag_header : ReadError → FlvError
  tag_data : ReadError → FlvError
  tag_size : ReadError → FlvError

pub data Result {ℓ} (A : Type ℓ) : Type ℓ where
  err : FlvError → Result A
  ok : A → Result A

-- `if err != nil { return nil, err }`
infixl 5 ◌>>=◌
abbrev pub ◌>>=◌ {ℓ κ} : {A : Type ℓ} {B : Type κ} → Result A → (A → Result B) → Result B
err failure >>= rest = err failure
ok value >>= rest = rest value

-- The first `n` bytes and the rest, if there are so many.
unfoldable pub take_exact : ℕ → Bytes → Option (Bytes × Bytes)
take_exact zero src = some ([], src)
take_exact (suc n) [] = none
take_exact (suc n) (b ∷ src) = elim (take_exact n src) [
  | none ↦ none
  | some (bs, rest) ↦ some (b ∷ bs, rest)
]

-- What `io.ReadFull` reports when the bytes are too few.
abbrev pub short : Bytes → ReadError
short [] = eof
short (b ∷ src) = unexpected_eof

-- `io.ReadFull` into a buffer of `n` bytes, on a source that holds `src` and then ends; `at` says
-- how the caller wraps the error.
unfoldable pub read_full : (ReadError → FlvError) → ℕ → Bytes → Result (Bytes × Bytes)
read_full at n src = elim (take_exact n src) [ none ↦ err (at (short src)) | some r ↦ ok r ]

-- `hdr[i]`; the index is always inside the array.
unfoldable pub byte_at : Bytes → ℕ → ℕ
byte_at [] i = 0
byte_at (b ∷ bs) zero = b
byte_at (b ∷ bs) (suc i) = byte_at bs i

unfoldable pub new_reader : Bytes → Result Bytes
unfolding byte_at read_full
new_reader src = do
  (hdr, rest) ← read_full file_header 13 src
  if byte_at hdr 0 == b'F' && byte_at hdr 1 == b'L' && byte_at hdr 2 == b'V'
      then ok rest
      else err bad_magic

-- The shifted bytes stand on disjoint bits, so `|` is `+`.
unfoldable pub data_len : Bytes → ℕ
unfolding byte_at
data_len hdr = byte_at hdr 1 * 65536 + byte_at hdr 2 * 256 + byte_at hdr 3

unfoldable pub tag_timestamp : Bytes → ℕ
unfolding byte_at
tag_timestamp hdr =
    byte_at hdr 4 * 65536 + byte_at hdr 5 * 256 + byte_at hdr 6 + byte_at hdr 7 * 16777216

-- `IsKeyframe`: a video tag whose first byte has the high nibble 1
unfoldable pub keyframe : ℕ → Bytes → Bool
keyframe tag_type [] = false
keyframe tag_type (b ∷ bs) = tag_type == packet_video && b / 16 == 1

-- The packet that `Next` fills from the header and the payload.
unfoldable pub read_packet : Bytes → Bytes → AvPacket
unfolding byte_at
read_packet hdr payload = record {
  packet_type = byte_at hdr 0;
  timestamp = tag_timestamp hdr;
  is_keyframe = keyframe (byte_at hdr 0) payload;
  payload = payload;
}

unfoldable pub next : Bytes → Result (AvPacket × Bytes)
next src = do
  (hdr, src1) ← read_full tag_header 11 src
  (payload, src2) ← read_full tag_data (data_len hdr) src1
  (_, src3) ← read_full tag_size 4 src2
  ok (read_packet hdr payload, src3)

-- The loop at the end of `RelayManager.pull`: each packet goes to `Ingest`, which acts on the
-- stream, until `Next` returns an error; `none` means that the fuel ran out.
module _ {ℓ} {S : Type ℓ} (ingest : S → AvPacket → S) where
  unfoldable pub pump : ℕ → Bytes → S → Option (S × FlvError)
  pump zero src s = none
  pump (suc fuel) src s = elim (next src) [
    | err e ↦ some (s, e)
    | ok (pkt, rest) ↦ pump fuel rest (ingest s pkt)
  ]
