-- ===== src/Rtsp/Callbacks/Recorded.antt =====
-- What the callbacks hand to the stream can be recorded and read back.
use cam_server.Base.{
  ℕ, suc, ◌+◌, ◌-◌, ◌*◌, ◌/◌, ◌%◌, ◌<◌, ◌≤◌, ◌≡◌, refl, ltb, leb, ◌&&◌, ◌||◌, Option, none, some,
  List, [], ◌∷◌, ◌++◌, length, All, All-append, arith, is_some, if◌then◌else◌, Option-cases,
  Bool-cases, inl, inr,
}
use cam_server.Flv.Reader.{keyframe}
use cam_server.Flv.RoundTrip.{IsWritable}
use cam_server.Rtsp.Callbacks.{
  sub32, video_time, audio_time, VideoState, or_else, packets_of, update_sets, on_video,
  audio_packets, on_audio,
}
use cam_server.Rtsp.Frames.{
  build_video_seq_header, build_video_frame, build_audio, build_audio_frame, extract_sps_pps,
}
use cam_server.Rtsp.Frames.Decode.{build_video_frame-decode_frame}
use cam_server.Rtsp.Frames.Headers.{
  build_video_seq_header_made, seq_packet-IsWritable, build_audio-payload,
}
use cam_server.Stream.Packet.{Bytes, AvPacket}

-- With `e` ticks since the first packet, the video timestamp is that number modulo 2^32 in
-- milliseconds: after 2^32 ticks, 13 hours and 15 minutes, it starts again at 0.
pub callback_times :
    (first e sample_rate : ℕ)
    → first < 4294967296
    → (video_time first ((first + e) % 4294967296) ≡ e % 4294967296 / 90)
      × (audio_time sample_rate first ((first + e) % 4294967296)
          ≡ e % 4294967296 * 1000 / sample_rate % 4294967296)
unfolding video_time audio_time sub32
callback_times first e sample_rate h =
    let ticks : ((first + e) % 4294967296 + (4294967296 - first)) % 4294967296 ≡ e % 4294967296 =
      omega arith in
    rw ticks (refl, refl)

-- A packet that can be recorded if its body is not too long.
abbrev Records : AvPacket → Type 0
Records pkt = length pkt.payload < 16777216 → IsWritable pkt

header-Records :
    (buf sps pps : Bytes)
    → All Records (
        if leb 4 (length sps) && ltb 0 (length pps)
        then packets_of (build_video_seq_header buf sps pps)
        else [])
header-Records buf sps pps = elim (Bool-cases (leb 4 (length sps) && ltb 0 (length pps))) [
  | inr e ↦ rw e tt
  | inl e ↦
      let long : 4 ≤ length sps = ground (arith, e) in
      rw (e, build_video_seq_header_made buf sps pps long)
        (λ small. seq_packet-IsWritable buf sps pps 0 small (omega arith), tt)
]

update_sets-Records :
    (buf : Bytes) (nalus : List Bytes) (st : VideoState) → All Records (update_sets buf nalus st).1
unfolding update_sets
update_sets-Records buf nalus st =
    let sets = extract_sps_pps none none nalus in
    elim (Bool-cases (is_some sets.0 || is_some sets.1)) [
      | inl e ↦
          rw e (header-Records buf (or_else sets.0 st.current_sps) (or_else sets.1 st.current_pps))
      | inr e ↦ rw e tt
    ]

video_time_fits : (first t : ℕ) → video_time first t < 4294967296
unfolding video_time sub32
video_time_fits first t = omega arith

on_video-Records :
    (buf1 buf2 : Bytes) (t : ℕ) (nalus : Option (List Bytes)) (st : VideoState)
    → All Records (on_video buf1 buf2 t nalus st).1
unfolding on_video
on_video-Records buf1 buf2 t none st = tt
on_video-Records buf1 buf2 t (some []) st = tt
on_video-Records buf1 buf2 t (some (nalu ∷ nalus)) st =
    let unit = nalu ∷ nalus in
    let header = update_sets-Records buf1 unit st in
    elim (Option-cases (build_video_frame buf2 unit)) [
      | inl e ↦ rw (e, on_video) header
      | inr (pkt, e) ↦
          let ts = video_time (or_else (update_sets buf1 unit st).0.first_ts t) t in
          let fits : ts < 4294967296 =
            video_time_fits (or_else (update_sets buf1 unit st).0.first_ts t) t in
          rw (e, on_video)
            (All-append Records _ _ header
              (λ small. (build_video_frame-decode_frame buf2 unit pkt ts e small fits).2, tt))
    ]

audio_frame-Records :
    (buf au : Bytes) (ts : ℕ)
    → ts < 4294967296
    → Records (record (build_audio_frame buf au) { timestamp = ts })
unfolding build_audio_frame build_audio keyframe
audio_frame-Records buf au ts fits small = record {
  type_fits = omega arith;
  timestamp_fits = fits;
  payload_fits = small;
  flag_agrees = rw (build_audio-payload 1 buf au) refl;
}

audio_packets-Records :
    (bufs : ℕ → Bytes) (i ts : ℕ) (aus : List Bytes)
    → ts < 4294967296
    → All Records (audio_packets bufs i ts aus)
unfolding audio_packets
audio_packets-Records bufs i ts [] fits = tt
audio_packets-Records bufs i ts (au ∷ aus) fits =
    (audio_frame-Records (bufs i) au ts fits, audio_packets-Records bufs (suc i) ts aus fits)

on_audio-Records :
    (bufs : ℕ → Bytes) (sample_rate t : ℕ) (aus : Option (List Bytes)) (st : Option ℕ)
    → All Records (on_audio bufs sample_rate t aus st).1
unfolding on_audio audio_time
on_audio-Records bufs sample_rate t none st = tt
on_audio-Records bufs sample_rate t (some []) st = tt
on_audio-Records bufs sample_rate t (some (au ∷ aus)) st =
    audio_packets-Records bufs 0 _ (au ∷ aus) (omega arith)

abbrev pub Short : AvPacket → Type 0
Short pkt = length pkt.payload < 16777216

writable : (pkts : List AvPacket) → All Records pkts → All Short pkts → All IsWritable pkts
writable [] r s = tt
writable (pkt ∷ pkts) (r, rs) (s, ss) = (r s, writable pkts rs ss)

-- Whatever the decoders return, and whatever the buffers of the pool held: where the bodies are
-- shorter than 2^24 bytes, every packet that one of the two callbacks hands to the stream can be
-- recorded, and is read back as it was.
pub callbacks-IsWritable :
    (buf1 buf2 : Bytes) (bufs : ℕ → Bytes) (sample_rate t : ℕ) (units : Option (List Bytes))
    (vst : VideoState) (ast : Option ℕ)
    → All Short (on_video buf1 buf2 t units vst).1
    → All Short (on_audio bufs sample_rate t units ast).1
    → All IsWritable
        ((on_video buf1 buf2 t units vst).1 ++ (on_audio bufs sample_rate t units ast).1)
callbacks-IsWritable buf1 buf2 bufs sample_rate t units vst ast short_video short_audio =
    All-append IsWritable _ _ (writable _ (on_video-Records buf1 buf2 t units vst) short_video)
      (writable _ (on_audio-Records bufs sample_rate t units ast) short_audio)
