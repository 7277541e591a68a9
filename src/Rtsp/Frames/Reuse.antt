-- ===== src/Rtsp/Frames/Reuse.antt =====
-- What a frame holds in the three bytes that `buildVideoFrame` leaves as they are.
use cam_server.Base.{
  ℕ, zero, suc, ◌+◌, ◌≤◌, ◌≡◌, refl, ap, some, List, [], ◌∷◌, ◌++◌, length, length-append, take,
  drop, arith, ltb, if◌then◌else◌, Bool-cases, inl, inr, ltb→le,
}
use cam_server.Rtsp.Frames.{filter_nalus, build_video_frame}
use cam_server.Rtsp.Frames.Decode.{length-units}
use cam_server.Rtsp.Frames.Layout.{
  units, units_size, frame_tag, frame_buffer, build_video_frame-IsFrame, length-stale,
}
use cam_server.Stream.Packet.{Bytes, AvPacket}
use cam_server.Stream.Pool.{zeros, new_data}

-- The composition time of a video body.
abbrev pub composition_time : Bytes → Bytes
composition_time body = take 3 (drop 2 body)

composition_time-append :
    (a b : ℕ) (three rest : Bytes)
    → length three ≡ 3
    → composition_time ((a ∷ b ∷ three) ++ rest) ≡ three
composition_time-append a b [] rest e = absurd (omega arith)
composition_time-append a b (x ∷ []) rest e = absurd (omega arith)
composition_time-append a b (x ∷ y ∷ []) rest e = absurd (omega arith)
composition_time-append a b (x ∷ y ∷ z ∷ []) rest e = refl
composition_time-append a b (x ∷ y ∷ z ∷ w ∷ more) rest e = absurd (omega arith)

composition_time-zeros : (n : ℕ) → 5 ≤ n → composition_time (zeros n) ≡ 0 ∷ 0 ∷ 0 ∷ []
unfolding zeros
composition_time-zeros (suc (suc (suc (suc (suc n))))) h = refl
composition_time-zeros (suc (suc (suc (suc zero)))) h = absurd (omega arith)
composition_time-zeros (suc (suc (suc zero))) h = absurd (omega arith)
composition_time-zeros (suc (suc zero)) h = absurd (omega arith)
composition_time-zeros (suc zero) h = absurd (omega arith)
composition_time-zeros zero h = absurd (omega arith)

composition_time-take :
    (n : ℕ) (buf : Bytes)
    → 5 ≤ n
    → n ≤ length buf
    → composition_time (take n buf) ≡ composition_time buf
composition_time-take (suc (suc (suc (suc (suc n))))) (a ∷ b ∷ c ∷ d ∷ e ∷ buf) h fits = refl
composition_time-take n [] h fits = absurd (omega arith)
composition_time-take n (a ∷ []) h fits = absurd (omega arith)
composition_time-take n (a ∷ b ∷ []) h fits = absurd (omega arith)
composition_time-take n (a ∷ b ∷ c ∷ []) h fits = absurd (omega arith)
composition_time-take n (a ∷ b ∷ c ∷ d ∷ []) h fits = absurd (omega arith)
composition_time-take (suc (suc (suc (suc zero)))) (a ∷ b ∷ c ∷ d ∷ e ∷ buf) h fits =
    absurd (omega arith)
composition_time-take (suc (suc (suc zero))) (a ∷ b ∷ c ∷ d ∷ e ∷ buf) h fits = absurd (omega arith)
composition_time-take (suc (suc zero)) (a ∷ b ∷ c ∷ d ∷ e ∷ buf) h fits = absurd (omega arith)
composition_time-take (suc zero) (a ∷ b ∷ c ∷ d ∷ e ∷ buf) h fits = absurd (omega arith)
composition_time-take zero (a ∷ b ∷ c ∷ d ∷ e ∷ buf) h fits = absurd (omega arith)

composition_time-new_data :
    (n : ℕ) (buf : Bytes)
    → 5 ≤ n
    → composition_time (new_data n buf)
      ≡ (if ltb (length buf) n then 0 ∷ 0 ∷ 0 ∷ [] else composition_time buf)
unfolding new_data
composition_time-new_data n buf h = elim (Bool-cases (ltb (length buf) n)) [
  | inl e ↦ rw e (composition_time-zeros n h)
  | inr e ↦ rw e (composition_time-take n buf h (ltb→le (length buf) n e))
]

-- The composition time of a frame is zero if the buffer of the pooled packet was too small and a new
-- one was made; otherwise it is what the buffer held from its last use.
pub composition_time-build_video_frame :
    (buf : Bytes) (nalus : List Bytes) (pkt : AvPacket)
    → build_video_frame buf nalus ≡ some pkt
    → composition_time pkt.payload
      ≡ (if ltb (length buf) (length pkt.payload) then 0 ∷ 0 ∷ 0 ∷ [] else composition_time buf)
composition_time-build_video_frame buf nalus pkt built =
    let w = build_video_frame-IsFrame buf nalus pkt built in
    let kept = filter_nalus nalus in
    let three = composition_time (frame_buffer buf nalus) in
    let is_three : length three ≡ 3 = length-stale buf kept in
    let size : length pkt.payload ≡ 5 + units_size kept =
      omega (arith, ap length w.laid_out, length-append three (units kept), length-units kept) in
    rw (size, w.laid_out, composition_time-append (frame_tag nalus) 1 three (units kept) is_three)
      (composition_time-new_data (5 + units_size kept) buf (omega arith))
