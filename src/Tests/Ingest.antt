-- ===== src/Tests/Ingest.antt =====
-- A key frame of two units, its parameter sets, and the goroutines of one key: internal/rtsp/ingester.go.
use mathlib.Core.List.{◌++◌}
use cam_server.Base.{
  ℕ, ◌≡◌, refl, true, false, Option, none, some, [], ◌∷◌, List, length, ltb, arith, All,
  if◌then◌else◌, lookup, drop,
}
use cam_server.Flv.RoundTrip.{IsWritable}
use cam_server.Flv.Writer.{byte}
use cam_server.Rtsp.Callbacks.{VideoState, on_video, on_audio, update_sets, audio_packets}
use cam_server.Rtsp.Callbacks.Recorded.{Short, callbacks-IsWritable}
use cam_server.Rtsp.Frames.{
  copy_at, put_uint32, filter_nalus, has_idr, total_size, put_nalus, is_parameter_set, nalu_type,
  build_video_frame, build_video_seq_header, build_audio, build_audio_frame, extract_sps_pps,
}
use cam_server.Rtsp.Frames.Decode.{decode_frame, build_video_frame-decode_frame}
use cam_server.Rtsp.Frames.Headers.{read_config, build_video_seq_header-read_config}
use cam_server.Rtsp.Frames.Reuse.{composition_time, composition_time-build_video_frame}
use cam_server.Rtsp.Sessions.{
  World, serving, run, idle_world, starts, gives_up, registers, removes, unregisters, start,
}
use cam_server.Rtsp.Sessions.Ownership.{run-Owned}
use cam_server.Rtsp.Sessions.Stages.{Runs, Owned}
use cam_server.Rtsp.Sessions.Teardown.{run-stuck}
use cam_server.Stream.Fanout.{LiveStream}
use cam_server.Stream.Manager.{get_stream}
use cam_server.Stream.Packet.{Bytes, AvPacket, packet_video}
use cam_server.Stream.Pool.{Pool, new_data}
use cam_server.Flv.Reader.{byte_at}

-- A delimiter, which is left out, and a slice of an IDR picture.
abbrev unit : List Bytes
unit = (0x09 ∷ 0xF0 ∷ []) ∷ (0x65 ∷ 0x88 ∷ []) ∷ []

-- The pool's packet was an audio packet before.
abbrev used : Bytes
used = 0xAF ∷ 1 ∷ 7 ∷ 8 ∷ 9 ∷ 10 ∷ 11 ∷ 12 ∷ 13 ∷ 14 ∷ 15 ∷ 16 ∷ []

abbrev frame : AvPacket
frame = record {
  packet_type = packet_video;
  timestamp = 0;
  is_keyframe = true;
  payload = 0x17 ∷ 1 ∷ 7 ∷ 8 ∷ 9 ∷ 0 ∷ 0 ∷ 0 ∷ 2 ∷ 0x65 ∷ 0x88 ∷ [];
}

frame_built : build_video_frame used unit ≡ some frame
unfolding build_video_frame filter_nalus has_idr total_size put_nalus is_parameter_set nalu_type
    copy_at put_uint32 new_data byte byte_at
frame_built = refl

build_video_frame-decode_frame_example :
    (decode_frame frame ≡ some (filter_nalus unit))
    × (true ≡ has_idr unit)
    × IsWritable (record frame { timestamp = 40 })
build_video_frame-decode_frame_example =
    build_video_frame-decode_frame used unit frame 40 frame_built (omega arith) (omega arith)

composition_time-build_video_frame_example :
    composition_time frame.payload
    ≡ (if ltb (length used) (length frame.payload) then 0 ∷ 0 ∷ 0 ∷ [] else composition_time used)
composition_time-build_video_frame_example =
    composition_time-build_video_frame used unit frame frame_built

abbrev sps : Bytes
sps = 0x67 ∷ 0x42 ∷ 0 ∷ 0x1E ∷ []

abbrev pps : Bytes
pps = 0x68 ∷ 0xCE ∷ []

build_video_seq_header-read_config_example :
    (pkt : AvPacket) × (build_video_seq_header used sps pps ≡ some pkt)
    × (read_config (drop 5 pkt.payload) ≡ some (sps, pps))
    × IsWritable (record pkt { timestamp = 0 })
build_video_seq_header-read_config_example =
    build_video_seq_header-read_config used sps pps 0 (omega arith) (omega arith) (omega arith)
      (omega arith)

abbrev before : VideoState
before = record { first_ts = none; current_sps = sps; current_pps = pps }

abbrev bufs : ℕ → Bytes
bufs n = used

abbrev slices : Option (List Bytes)
slices = some ((0x65 ∷ 0x88 ∷ []) ∷ [])

video-Short : All Short (on_video used used 90 slices before).1
unfolding on_video update_sets extract_sps_pps build_video_frame filter_nalus has_idr total_size
    put_nalus is_parameter_set nalu_type copy_at put_uint32 new_data byte byte_at
video-Short = (omega arith, tt)

audio-Short : All Short (on_audio bufs 8000 90 slices none).1
unfolding on_audio audio_packets build_audio_frame build_audio copy_at new_data
audio-Short = (omega arith, tt)

callbacks-IsWritable_example :
    All IsWritable
      ((on_video used used 90 slices before).1 ++ (on_audio bufs 8000 90 slices none).1)
callbacks-IsWritable_example =
    callbacks-IsWritable used used bufs 8000 90 slices before none video-Short audio-Short

abbrev pool : Pool
pool = record { refs = λ p. 0; free = [] }

run-Owned_example :
    let w = run "node-1" (starts "cam/main" ∷ registers 0 ∷ []) (idle_world pool) in
    ((g : ℕ) → lookup "cam/main" w.sessions ≡ some g → Runs "cam/main" g w)
    × ((s : LiveStream) → lookup "cam/main" w.manager.streams ≡ some s → Owned "cam/main" w)
run-Owned_example = run-Owned "node-1" "cam/main" pool (starts "cam/main" ∷ registers 0 ∷ [])

abbrev served : World
served = record (idle_world pool) {
  sessions = ("cam/main", 0) ∷ [];
  ingests = λ g. record { key = "cam/main"; stage = serving; cancelled = false };
  next = 1;
}

run-stuck_example :
    let w =
      run "node-1"
        (starts "cam/main"
          ∷ gives_up 0
          ∷ removes 0
          ∷ starts "cam/main"
          ∷ registers 1
          ∷ unregisters 0
          ∷ [])
        (idle_world pool) in
    (lookup "cam/main" w.sessions ≡ some 1)
    × (w.ingests 1 ≡ record { key = "cam/main"; stage = serving; cancelled = false })
    × (get_stream "cam/main" w.manager ≡ none)
    × (start "cam/main" w ≡ w)
run-stuck_example = run-stuck "node-1" "cam/main" pool
