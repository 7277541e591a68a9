-- ===== src/Rtsp/Frames.antt =====
-- The FLV body builders at the end of internal/rtsp/ingester.go. A builder writes into the buffer of
-- a packet from the pool; `buf` is what that packet's buffer held, over its whole capacity.
pub mod Layout
pub mod Decode
pub mod Reuse
pub mod Headers
use cam_server.Base.{
  ℕ, zero, suc, ◌+◌, ◌/◌, ◌%◌, Bool, true, false, Option, none, some, List, [], ◌∷◌, ◌++◌, length,
  ltb, ◌==◌, ◌||◌, if◌then◌else◌,
}
use cam_server.Flv.Reader.{byte_at}
use cam_server.Flv.Writer.{byte}
use cam_server.Stream.Packet.{Bytes, AvPacket, packet_audio, packet_video}
use cam_server.Stream.Pool.{new_data}

-- `copy(data[pos:], bs)`
unfoldable pub copy_at : ℕ → Bytes → Bytes → Bytes
copy_at zero [] body = body
copy_at zero (b ∷ bs) [] = []
copy_at zero (b ∷ bs) (d ∷ body) = b ∷ copy_at zero bs body
copy_at (suc pos) bs [] = []
copy_at (suc pos) bs (d ∷ body) = d ∷ copy_at pos bs body

-- `byte(n>>8), byte(n)`
unfoldable pub put_uint16 : ℕ → Bytes
unfolding byte
put_uint16 n = byte (n / 256) ∷ byte n ∷ []

-- `binary.BigEndian.PutUint32(…, uint32(n))`
unfoldable pub put_uint32 : ℕ → Bytes
unfolding byte
put_uint32 n = byte (n / 16777216) ∷ byte (n / 65536) ∷ byte (n / 256) ∷ byte n ∷ []

-- `buildAVCConfigRecord`; `none` is the panic of `sps[1]`, `sps[2]` or `sps[3]` out of range.
unfoldable pub build_avc_config_record : Bytes → Bytes → Option Bytes
build_avc_config_record sps pps =
    if ltb (length sps) 4
    then none
    else some (
        (0x01 ∷ byte_at sps 1 ∷ byte_at sps 2 ∷ byte_at sps 3 ∷ 0xFF ∷ 0xE1 ∷ [])
        ++ put_uint16 (length sps)
        ++ sps
        ++ (0x01 ∷ [])
        ++ put_uint16 (length pps)
        ++ pps)

-- `buildVideoSeqHeader`, which panics with `buildAVCConfigRecord`.
unfoldable pub build_video_seq_header : Bytes → Bytes → Bytes → Option AvPacket
build_video_seq_header buf sps pps = elim (build_avc_config_record sps pps) [
  | none ↦ none
  | some config ↦
      let body = new_data (5 + length config) buf in
      some (record {
        packet_type = packet_video;
        timestamp = 0;
        is_keyframe = true;
        payload = copy_at 5 config (copy_at 0 (0x17 ∷ 0x00 ∷ []) body);
      })
]

-- `nalu[0] & 0x1F`
unfoldable pub nalu_type : Bytes → ℕ
nalu_type nalu = byte_at nalu 0 % 32

-- The first loop of `buildVideoFrame`: the units that it keeps, and whether one is an IDR.
unfoldable pub is_parameter_set : Bytes → Bool
is_parameter_set nalu = nalu_type nalu == 7 || nalu_type nalu == 8 || nalu_type nalu == 9

unfoldable pub filter_nalus : List Bytes → List Bytes
filter_nalus [] = []
filter_nalus ([] ∷ nalus) = filter_nalus nalus
filter_nalus ((b ∷ bs) ∷ nalus) =
    let rest = filter_nalus nalus in if is_parameter_set (b ∷ bs) then rest else (b ∷ bs) ∷ rest

unfoldable pub has_idr : List Bytes → Bool
has_idr [] = false
has_idr ([] ∷ nalus) = has_idr nalus
has_idr ((b ∷ bs) ∷ nalus) = nalu_type (b ∷ bs) == 5 || has_idr nalus

-- The second loop: `total`.
unfoldable pub total_size : ℕ → List Bytes → ℕ
total_size total [] = total
total_size total (nalu ∷ nalus) = total_size (total + (4 + length nalu)) nalus

-- The third loop: each unit behind its length.
unfoldable pub put_nalus : ℕ → List Bytes → Bytes → Bytes
put_nalus pos [] body = body
put_nalus pos (nalu ∷ nalus) body =
    put_nalus (pos + 4 + length nalu) nalus
      (copy_at (pos + 4) nalu (copy_at pos (put_uint32 (length nalu)) body))

-- `buildVideoFrame`; `none` is nil.
unfoldable pub build_video_frame : Bytes → List Bytes → Option AvPacket
build_video_frame buf nalus = elim (filter_nalus nalus) [
  | [] ↦ none
  | first ∷ rest ↦
      let filtered = first ∷ rest in
      let body = new_data (total_size 5 filtered) buf in
      let tag = if has_idr nalus then 0x17 else 0x27 in
      some (record {
        packet_type = packet_video;
        timestamp = 0;
        is_keyframe = has_idr nalus;
        payload = put_nalus 5 filtered (copy_at 0 (tag ∷ 0x01 ∷ []) body);
      })
]

-- `buildAudioSeqHeader` and `buildAudioFrame`, which differ in the second byte.
unfoldable pub build_audio : ℕ → Bytes → Bytes → AvPacket
build_audio kind buf bytes =
    let body = new_data (2 + length bytes) buf in
    record {
      packet_type = packet_audio;
      timestamp = 0;
      is_keyframe = false;
      payload = copy_at 2 bytes (copy_at 0 (0xAF ∷ kind ∷ []) body);
    }

unfoldable pub build_audio_seq_header : Bytes → Bytes → AvPacket
build_audio_seq_header buf config = build_audio 0x00 buf config

unfoldable pub build_audio_frame : Bytes → Bytes → AvPacket
build_audio_frame buf au = build_audio 0x01 buf au

-- `extractSPSPPS`: the last of each that is there.
unfoldable pub extract_sps_pps :
    Option Bytes → Option Bytes → List Bytes → Option Bytes × Option Bytes
extract_sps_pps sps pps [] = (sps, pps)
extract_sps_pps sps pps ([] ∷ nalus) = extract_sps_pps sps pps nalus
extract_sps_pps sps pps ((b ∷ bs) ∷ nalus) =
    extract_sps_pps (if nalu_type (b ∷ bs) == 7 then some (b ∷ bs) else sps)
      (if nalu_type (b ∷ bs) == 8 then some (b ∷ bs) else pps) nalus
