-- ===== src/Flv/RoundTrip.antt =====
-- What the writer produces, the reader reads back.
use mathlib.Core.List.{foldl}
use cam_server.Base.{
  ℕ, zero, suc, ◌%◌, ◌<◌, ◌≡◌, refl, some, List, [], ◌∷◌, ◌++◌, length, All, append_assoc, arith,
}
use cam_server.Stream.Packet.{Bytes, AvPacket}
use cam_server.Flv.Writer.{file_header, tag_header, prev_tag_size, tag_bytes}
use cam_server.Flv.Reader.{
  Result, ok, err, FlvError, ◌>>=◌, eof, take_exact, read_full, byte_at, data_len, tag_timestamp,
  keyframe, new_reader, read_packet, next, pump,
}
use cam_server.Flv.Reader

-- The packets that a tag can carry: an 8-bit type, a 32-bit timestamp, a payload whose length
-- fits in the 24-bit size field, and the keyframe flag that the payload shows.
pub record IsWritable (pkt : AvPacket) : Type 0 where
  pub type_fits : pkt.packet_type < 256
  pub timestamp_fits : pkt.timestamp < 4294967296
  pub payload_fits : length pkt.payload < 16777216
  pub flag_agrees : pkt.is_keyframe ≡ keyframe pkt.packet_type pkt.payload

pub take_exact-append : (xs rest : Bytes) → take_exact (length xs) (xs ++ rest) ≡ some (xs, rest)
unfolding take_exact
take_exact-append [] rest = refl
take_exact-append (x ∷ xs) rest = rw (take_exact-append xs rest)

-- The size and the timestamp that the reader finds in a header are those that the writer put
-- there, modulo 2^24 and 2^32: a payload of 2^24 bytes or more gets a size that is too small.
pub header_fields :
    (packet_type len ts : ℕ)
    → (data_len (tag_header packet_type len ts) ≡ len % 16777216)
      × (tag_timestamp (tag_header packet_type len ts) ≡ ts % 4294967296)
unfolding data_len tag_timestamp tag_header
header_fields packet_type len ts = (omega arith, omega arith)

data_len-tag_header :
    (packet_type len ts : ℕ) → len < 16777216 → data_len (tag_header packet_type len ts) ≡ len
data_len-tag_header packet_type len ts h = omega (arith, (header_fields packet_type len ts).0)

timestamp-tag_header :
    (packet_type len ts : ℕ) → ts < 4294967296 → tag_timestamp (tag_header packet_type len ts) ≡ ts
timestamp-tag_header packet_type len ts h = omega (arith, (header_fields packet_type len ts).1)

tag_type-tag_header :
    (packet_type len ts : ℕ)
    → packet_type < 256
    → byte_at (tag_header packet_type len ts) 0 ≡ packet_type
unfolding byte_at tag_header
tag_type-tag_header packet_type len ts h = omega arith

next-header :
    (packet_type len ts : ℕ) (rest : Bytes)
    → read_full Reader.tag_header 11 (tag_header packet_type len ts ++ rest)
      ≡ ok (tag_header packet_type len ts, rest)
unfolding read_full take_exact tag_header
next-header packet_type len ts rest = refl

next-payload :
    (payload rest : Bytes)
    → read_full Reader.tag_data (length payload) (payload ++ rest) ≡ ok (payload, rest)
unfolding read_full
next-payload payload rest = rw (take_exact-append payload rest, read_full)

next-trailer :
    (len : ℕ) (rest : Bytes)
    → read_full Reader.tag_size 4 (prev_tag_size len ++ rest) ≡ ok (prev_tag_size len, rest)
unfolding read_full take_exact prev_tag_size
next-trailer len rest = refl

tag_bytes-append :
    (pkt : AvPacket) (rest : Bytes)
    → tag_bytes pkt ++ rest
      ≡ tag_header pkt.packet_type (length pkt.payload) pkt.timestamp
        ++ (pkt.payload ++ (prev_tag_size (length pkt.payload) ++ rest))
unfolding tag_bytes
tag_bytes-append pkt rest = simp append_assoc

-- A tag that is written from a writable packet and read with any bytes behind it gives the packet
-- back and leaves those bytes.
pub next-tag_bytes :
    (pkt : AvPacket) (rest : Bytes) → IsWritable pkt → next (tag_bytes pkt ++ rest) ≡ ok (pkt, rest)
unfolding next read_packet
next-tag_bytes pkt rest h = rw (
  tag_bytes-append pkt rest,
  next-header,
  data_len-tag_header pkt.packet_type (length pkt.payload) pkt.timestamp h.payload_fits,
  next-payload,
  next-trailer,
  tag_type-tag_header pkt.packet_type (length pkt.payload) pkt.timestamp h.type_fits,
  timestamp-tag_header pkt.packet_type (length pkt.payload) pkt.timestamp h.timestamp_fits,
  ← h.flag_agrees,
)

pub next-nil : next [] ≡ err (Reader.tag_header eof)
unfolding next read_full take_exact
next-nil = refl

-- The file that a writer makes of some packets: the header and the tags.
abbrev pub tags : List AvPacket → Bytes
tags [] = []
tags (pkt ∷ pkts) = tag_bytes pkt ++ tags pkts

new_reader-file_header : (rest : Bytes) → new_reader (file_header ++ rest) ≡ ok rest
unfolding new_reader take_exact
new_reader-file_header rest = refl

module _ {ℓ} {S : Type ℓ} (ingest : S → AvPacket → S) where
  pump-tags :
      (pkts : List AvPacket) (fuel : ℕ) (s : S)
      → All IsWritable pkts
      → length pkts < fuel
      → pump ingest fuel (tags pkts) s ≡ some (foldl ingest s pkts, Reader.tag_header eof)
  unfolding pump
  pump-tags pkts zero s h enough = absurd (omega arith)
  pump-tags [] (suc fuel) s h enough = rw (next-nil, pump)
  pump-tags (pkt ∷ pkts) (suc fuel) s h enough =
      rw (next-tag_bytes pkt (tags pkts) h.0, pump)
        (pump-tags pkts fuel (ingest s pkt) h.1 (omega arith))

  -- A written file, the header and one tag for each packet, passes the header check; the loop that
  -- reads it then hands exactly these packets to the stream, in order, and ends with a clean end
  -- of file. Fuel of one more than the number of packets is enough.
  pub file_round_trip :
      (pkts : List AvPacket) (fuel : ℕ) (s : S)
      → All IsWritable pkts
      → length pkts < fuel
      → (new_reader (file_header ++ tags pkts) ≡ ok (tags pkts))
        × (pump ingest fuel (tags pkts) s ≡ some (foldl ingest s pkts, Reader.tag_header eof))
  file_round_trip pkts fuel s h enough =
      (new_reader-file_header (tags pkts), pump-tags pkts fuel s h enough)
