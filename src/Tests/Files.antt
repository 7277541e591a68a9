-- ===== src/Tests/Files.antt =====
-- One video tag, whole and cut short: internal/flv/writer.go and internal/flv/reader.go.
use cam_server.Base.{◌≡◌, refl, ◌+◌, true, none, some, [], ◌∷◌, ◌++◌, length, arith}
use cam_server.Flv.Errors.{next_truncated}
use cam_server.Flv.Serialise.{write_tag-tag_bytes}
use cam_server.Flv.Reader
use cam_server.Flv.Reader.{
  FlvError, eof, ok, err, next, new_reader, pump, data_len, tag_timestamp, keyframe, byte_at,
}
use cam_server.Flv.RoundTrip.{IsWritable, tags, next-tag_bytes, file_round_trip}
use cam_server.Flv.Writer.{
  Writer, file_header, tag_header, tag_bytes, write_tag, prev_tag_size, byte,
}
use cam_server.Stream.Packet.{Bytes, AvPacket}

abbrev packet : AvPacket
packet = record { packet_type = 9; timestamp = 40; is_keyframe = true; payload = 0x17 ∷ 0x01 ∷ [] }

packet-IsWritable : IsWritable packet
unfolding keyframe byte_at
packet-IsWritable = record {
  type_fits = omega arith;
  timestamp_fits = omega arith;
  payload_fits = omega arith;
  flag_agrees = refl;
}

file_round_trip_example :
    (new_reader (file_header ++ tags (packet ∷ packet ∷ [])) ≡ ok (tags (packet ∷ packet ∷ [])))
    × (pump (λ n pkt. n + length pkt.payload) 3 (tags (packet ∷ packet ∷ [])) 0
        ≡ some (4, Reader.tag_header eof))
file_round_trip_example =
    file_round_trip (λ n pkt. n + length pkt.payload) (packet ∷ packet ∷ []) 3 0
      (packet-IsWritable, (packet-IsWritable, tt)) (omega arith)

read_back : next (tag_bytes packet ++ 7 ∷ []) ≡ ok (packet, 7 ∷ [])
read_back = next-tag_bytes packet (7 ∷ []) packet-IsWritable

abbrev one_byte : Bytes
one_byte = 9 ∷ []

-- The tag without its last byte.
abbrev cut : Bytes
cut = 9 ∷ 0 ∷ 0 ∷ 2 ∷ 0 ∷ 0 ∷ 40 ∷ 0 ∷ 0 ∷ 0 ∷ 0 ∷ 0x17 ∷ 0x01 ∷ 0 ∷ 0 ∷ 0 ∷ []

cut-tag_bytes : cut ++ 13 ∷ [] ≡ tag_bytes packet
unfolding tag_bytes tag_header prev_tag_size byte
cut-tag_bytes = refl

next_truncated_example :
    (e : FlvError) × (next cut ≡ err e) × (e ≡ Reader.tag_header eof → cut ≡ [])
next_truncated_example = next_truncated packet cut 13 [] packet-IsWritable cut-tag_bytes

-- A writer that keeps the bytes in memory and never fails.
abbrev buffer : Writer
buffer = record {
  State = Bytes;
  write = λ w bs. (w ++ bs, none);
  written = λ w. w;
  write_appends = λ w bs h. refl;
}

written : (write_tag buffer [] packet).1 ≡ none
unfolding write_tag
written = refl

write_tag-tag_bytes_example : (write_tag buffer [] packet).0 ≡ tag_bytes packet
write_tag-tag_bytes_example = write_tag-tag_bytes buffer [] packet written
