-- ===== src/Rtsp/Frames/Headers.antt =====
-- The sequence headers: what `buildVideoSeqHeader` and the audio builders write.
use cam_server.Base.{
  ℕ, ◌+◌, ◌*◌, ◌/◌, ◌%◌, ◌<◌, ◌≤◌, ◌≡◌, refl, ap, true, false, ltb, Option, none, some, [], ◌∷◌,
  ◌++◌, length, length-append, length-drop, take, drop, append_assoc, append-nil, arith,
}
use cam_server.Flv.Reader.{byte_at, take_exact, keyframe}
use cam_server.Flv.RoundTrip.{IsWritable, take_exact-append}
use cam_server.Flv.Writer.{byte}
use cam_server.Rtsp.Frames.{
  copy_at, put_uint16, build_avc_config_record, build_video_seq_header, build_audio,
}
use cam_server.Rtsp.Frames.Decode.{drop-header}
use cam_server.Rtsp.Frames.Layout.{
  copy_at-fill, copy_at-header, copy_at-zero, length-header, length-new_data,
}
use cam_server.Stream.Packet.{Bytes, AvPacket, packet_video}
use cam_server.Stream.Pool.{new_data}

-- A parameter set behind two bytes of length.
pub read_set : Bytes → Option (Bytes × Bytes)
read_set (b1 ∷ b0 ∷ rest) = take_exact (b1 * 256 + b0) rest
read_set (b ∷ []) = none
read_set [] = none

-- The parameter sets of a configuration record, as a player reads them.
pub read_config : Bytes → Option (Bytes × Bytes)
read_config record_bytes = elim (read_set (drop 6 record_bytes)) [
  | none ↦ none
  | some (sps, more) ↦ elim (read_set (drop 1 more)) [
    | none ↦ none
    | some (pps, rest) ↦ some (sps, pps)
  ]
]

read_set-put :
    (set rest : Bytes)
    → length set < 65536
    → read_set (put_uint16 (length set) ++ (set ++ rest)) ≡ some (set, rest)
unfolding read_set put_uint16 byte
read_set-put set rest small =
    let n = length set in
    let whole : n / 256 % 256 * 256 + n % 256 ≡ n = omega arith in
    rw (whole, take_exact-append set rest) refl

-- The bytes of a record for parameter sets of which the first has four bytes or more.
abbrev config_bytes : Bytes → Bytes → Bytes
config_bytes sps pps =
    (0x01 ∷ byte_at sps 1 ∷ byte_at sps 2 ∷ byte_at sps 3 ∷ 0xFF ∷ 0xE1 ∷ [])
    ++ put_uint16 (length sps)
    ++ sps
    ++ (0x01 ∷ [])
    ++ put_uint16 (length pps)
    ++ pps

read_config-bytes :
    (sps pps : Bytes)
    → length sps < 65536
    → length pps < 65536
    → read_config (config_bytes sps pps) ≡ some (sps, pps)
unfolding read_config
read_config-bytes sps pps small_sps small_pps =
    let tail = 0x01 ∷ (put_uint16 (length pps) ++ (pps ++ [])) in
    let nested : put_uint16 (length sps) ++ sps ++ (1 ∷ []) ++ put_uint16 (length pps) ++ pps
        ≡ put_uint16 (length sps) ++ (sps ++ tail) =
      simp (append_assoc, append-nil) in
    rw (nested, read_config, read_set-put sps tail small_sps, read_set-put pps [] small_pps) refl

-- The three bytes of the composition time, which stay as the buffer held them.
abbrev left_over : Bytes → Bytes → Bytes
left_over buf config = take 3 (drop 2 (new_data (5 + length config) buf))

-- The header that is made of such parameter sets.
abbrev pub seq_packet : Bytes → Bytes → Bytes → AvPacket
seq_packet buf sps pps =
    let config = config_bytes sps pps in
    record {
      packet_type = packet_video;
      timestamp = 0;
      is_keyframe = true;
      payload = copy_at 5 config (copy_at 0 (0x17 ∷ 0x00 ∷ []) (new_data (5 + length config) buf));
    }

pub build_video_seq_header_made :
    (buf sps pps : Bytes)
    → 4 ≤ length sps
    → build_video_seq_header buf sps pps ≡ some (seq_packet buf sps pps)
unfolding build_video_seq_header build_avc_config_record
build_video_seq_header_made buf sps pps long =
    let enough : ltb (length sps) 4 ≡ false = ground (arith, long) in
    rw (enough, build_video_seq_header) refl

-- Its body is behind the two bytes and the three that the buffer held.
seq_packet-payload :
    (buf sps pps : Bytes)
    → (seq_packet buf sps pps).payload
      ≡ (0x17 ∷ 0x00 ∷ left_over buf (config_bytes sps pps)) ++ config_bytes sps pps
seq_packet-payload buf sps pps =
    let config = config_bytes sps pps in
    let body = new_data (5 + length config) buf in
    let size : length body ≡ 5 + length config = length-new_data (5 + length config) buf in
    let three : length (take 3 (drop 2 body)) ≡ 3 = length-header body (omega arith) in
    rw (copy_at-header 0x17 0x00 body (omega arith)) (
      copy_at-fill 5 (0x17 ∷ 0x00 ∷ take 3 (drop 2 body)) config (drop 5 body) (omega arith)
        (omega (arith, length-drop 5 body)))

pub seq_packet-IsWritable :
    (buf sps pps : Bytes) (ts : ℕ)
    → length (seq_packet buf sps pps).payload < 16777216
    → ts < 4294967296
    → IsWritable (record (seq_packet buf sps pps) { timestamp = ts })
unfolding keyframe
seq_packet-IsWritable buf sps pps ts small fits =
    let laid = seq_packet-payload buf sps pps in
    record {
      type_fits = omega arith;
      timestamp_fits = fits;
      payload_fits = small;
      flag_agrees = rw laid refl;
    }

length-config : (sps pps : Bytes) → length (config_bytes sps pps) ≡ 11 + length sps + length pps
unfolding put_uint16
length-config sps pps =
    let tail = put_uint16 (length pps) ++ pps in
    let flat : put_uint16 (length sps) ++ sps ++ (1 ∷ []) ++ put_uint16 (length pps) ++ pps
        ≡ put_uint16 (length sps) ++ (sps ++ (1 ∷ tail)) =
      simp append_assoc in
    omega (arith, ap length flat, length-append sps (1 ∷ tail))

-- The sequence header of parameter sets of less than 2^16 bytes each, of which the first has the four
-- bytes that the callers make sure of, is made without a panic, carries exactly these sets, and can be
-- recorded with any 32-bit timestamp.
pub build_video_seq_header-read_config :
    (buf sps pps : Bytes) (ts : ℕ)
    → 4 ≤ length sps
    → length sps < 65536
    → length pps < 65536
    → ts < 4294967296
    → (pkt : AvPacket) × (build_video_seq_header buf sps pps ≡ some pkt)
      × (read_config (drop 5 pkt.payload) ≡ some (sps, pps))
      × IsWritable (record pkt { timestamp = ts })
build_video_seq_header-read_config buf sps pps ts long small_sps small_pps fits =
    let config = config_bytes sps pps in
    let three = left_over buf config in
    let is_three : length three ≡ 3 =
      length-header (new_data (5 + length config) buf)
        (omega (arith, length-new_data (5 + length config) buf)) in
    let laid = seq_packet-payload buf sps pps in
    (
      seq_packet buf sps pps,
      build_video_seq_header_made buf sps pps long,
      rw (laid, drop-header 0x17 0x00 three config is_three)
          (read_config-bytes sps pps small_sps small_pps),
      seq_packet-IsWritable buf sps pps ts
          (omega (arith, ap length laid, length-append three config, length-config sps pps)) fits,
    )

-- An audio packet holds its two header bytes and the bytes that it is made of, whatever its buffer
-- held.
pub build_audio-payload :
    (kind : ℕ) (buf bytes : Bytes) → (build_audio kind buf bytes).payload ≡ 0xAF ∷ kind ∷ bytes
unfolding build_audio
build_audio-payload kind buf bytes =
    let body = new_data (2 + length bytes) buf in
    let size : length body ≡ 2 + length bytes = length-new_data (2 + length bytes) buf in
    rw (copy_at-zero (0xAF ∷ kind ∷ []) body (omega arith)) (
      copy_at-fill 2 (0xAF ∷ kind ∷ []) bytes (drop 2 body) refl
        (omega (arith, length-drop 2 body)))
