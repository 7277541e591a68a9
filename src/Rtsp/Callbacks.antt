-- ===== src/Rtsp/Callbacks.antt =====
-- The two callbacks of `ingest` in internal/rtsp/ingester.go, which turn what the RTP decoders return
-- into packets. The decoders are libraries: a callback is given the RTP timestamp and what its decoder
-- returned, where `none` is an error, and the buffers of the packets that it takes from the pool.
pub mod Recorded
use cam_server.Base.{
  ℕ, zero, suc, ◌+◌, ◌-◌, ◌*◌, ◌/◌, ◌%◌, Bool, true, false, ◌&&◌, ◌||◌, Option, none, some, List,
  [], ◌∷◌, ◌++◌, length, ltb, leb, is_some, if◌then◌else◌,
}
use cam_server.Rtsp.Frames.{
  build_video_seq_header, build_video_frame, build_audio_frame, extract_sps_pps,
}
use cam_server.Stream.Packet.{Bytes, AvPacket}

-- `a - b` of two `uint32`.
unfoldable pub sub32 : ℕ → ℕ → ℕ
sub32 a b = (a + (4294967296 - b)) % 4294967296

-- `(pkt.Timestamp - firstTS) / 90`
unfoldable pub video_time : ℕ → ℕ → ℕ
unfolding sub32
video_time first t = sub32 t first / 90

-- `uint32(uint64(pkt.Timestamp-firstTS) * 1000 / uint64(sampleRate))`; the product is below 2^64.
unfoldable pub audio_time : ℕ → ℕ → ℕ → ℕ
unfolding sub32
audio_time sample_rate first t = sub32 t first * 1000 / sample_rate % 4294967296

-- `firstTS` with `gotFirstTS`, `currentSPS` and `currentPPS`.
pub record VideoState : Type 0 where
  pub first_ts : Option ℕ
  pub current_sps : Bytes
  pub current_pps : Bytes

abbrev pub or_else {ℓ} : {A : Type ℓ} → Option A → A → A
or_else none a = a
or_else (some b) a = b

abbrev pub packets_of : Option AvPacket → List AvPacket
packets_of none = []
packets_of (some pkt) = pkt ∷ []

-- The parameter sets of the access unit, and the header that an update of them calls for, behind
-- a test of the lengths.
unfoldable pub update_sets : Bytes → List Bytes → VideoState → VideoState × List AvPacket
update_sets buf nalus st =
    let (new_sps, new_pps) = extract_sps_pps none none nalus in
    let sps = or_else new_sps st.current_sps in
    let pps = or_else new_pps st.current_pps in
    let st' : VideoState = record st { current_sps = sps; current_pps = pps } in
    if is_some new_sps || is_some new_pps
    then (
      st',
      if leb 4 (length sps) && ltb 0 (length pps)
          then packets_of (build_video_seq_header buf sps pps)
          else [],
    )
    else (st, [])

-- The video callback, for the buffers of its two packets.
unfoldable pub on_video :
    Bytes → Bytes → ℕ → Option (List Bytes) → VideoState → VideoState × List AvPacket
on_video buf1 buf2 t none st = (st, [])
on_video buf1 buf2 t (some []) st = (st, [])
on_video buf1 buf2 t (some (nalu ∷ nalus)) st =
    let (st1, header) = update_sets buf1 (nalu ∷ nalus) st in
    elim (build_video_frame buf2 (nalu ∷ nalus)) [
      | none ↦ (st1, header)
      | some pkt ↦
          let first = or_else st1.first_ts t in
          (
            record st1 { first_ts = some first },
            header ++ record pkt { timestamp = video_time first t } ∷ [],
          )
    ]

-- The loop over the access units; the packet of the `i`-th takes the buffer `bufs i`.
unfoldable pub audio_packets : (ℕ → Bytes) → ℕ → ℕ → List Bytes → List AvPacket
audio_packets bufs i ts [] = []
audio_packets bufs i ts (au ∷ aus) =
    record (build_audio_frame (bufs i) au) { timestamp = ts } ∷ audio_packets bufs (suc i) ts aus

-- The audio callback, with `firstTS` and `gotFirstTS` as its state.
unfoldable pub on_audio :
    (ℕ → Bytes) → ℕ → ℕ → Option (List Bytes) → Option ℕ → Option ℕ × List AvPacket
on_audio bufs sample_rate t none st = (st, [])
on_audio bufs sample_rate t (some []) st = (st, [])
on_audio bufs sample_rate t (some (au ∷ aus)) st =
    let first = or_else st t in
    (some first, audio_packets bufs 0 (audio_time sample_rate first t) (au ∷ aus))
