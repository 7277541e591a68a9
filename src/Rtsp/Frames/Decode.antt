-- ===== src/Rtsp/Frames/Decode.antt =====
-- A decoder of the frames that `buildVideoFrame` writes, as a player has one, and what it finds.
use cam_server.Base.{
  ℕ, zero, suc, ◌+◌, ◌*◌, ◌≤◌, ◌<◌, ◌≡◌, refl, sym, ap, Option, none, some, List, [], ◌∷◌, ◌++◌,
  length, length-append, take, drop, arith,
}
use cam_server.Flv.Reader.{take_exact, keyframe}
use cam_server.Flv.RoundTrip.{IsWritable, take_exact-append}
use cam_server.Flv.Writer.{byte}
use cam_server.Rtsp.Frames.{put_uint32, filter_nalus, has_idr, build_video_frame}
use cam_server.Rtsp.Frames.Layout.{
  units, units_size, frame_tag, frame_buffer, build_video_frame-IsFrame, length-stale,
}
use cam_server.Stream.Packet.{Bytes, AvPacket, packet_video}

-- The units of a body, each behind four bytes of length; fuel for the number of units.
pub read_units : ℕ → Bytes → Option (List Bytes)
read_units fuel [] = some []
read_units zero (b ∷ bs) = none
read_units (suc fuel) (b3 ∷ b2 ∷ b1 ∷ b0 ∷ rest) =
    elim (take_exact (b3 * 16777216 + b2 * 65536 + b1 * 256 + b0) rest) [
      | none ↦ none
      | some (nalu, more) ↦ elim (read_units fuel more) [
        | none ↦ none
        | some nalus ↦ some (nalu ∷ nalus)
      ]
    ]
read_units (suc fuel) (b ∷ bs) = none

read_units-step :
    (fuel b3 b2 b1 b0 : ℕ) (nalu tail : Bytes)
    → b3 * 16777216 + b2 * 65536 + b1 * 256 + b0 ≡ length nalu
    → read_units (suc fuel) (b3 ∷ b2 ∷ b1 ∷ b0 ∷ (nalu ++ tail))
      ≡ elim (read_units fuel tail) [ none ↦ none | some nalus ↦ some (nalu ∷ nalus) ]
unfolding read_units
read_units-step fuel b3 b2 b1 b0 nalu tail whole =
    rw (whole, read_units, take_exact-append nalu tail) refl

read_units-cons :
    (fuel : ℕ) (nalu tail : Bytes)
    → length nalu < 4294967296
    → read_units (suc fuel) (put_uint32 (length nalu) ++ (nalu ++ tail))
      ≡ elim (read_units fuel tail) [ none ↦ none | some nalus ↦ some (nalu ∷ nalus) ]
unfolding put_uint32 byte
read_units-cons fuel nalu tail small = read_units-step fuel _ _ _ _ nalu tail (omega arith)

read_units_nil : (fuel : ℕ) → read_units fuel [] ≡ some []
unfolding read_units
read_units_nil fuel = refl

read_units-units :
    (fuel : ℕ) (nalus : List Bytes)
    → length nalus ≤ fuel
    → units_size nalus < 4294967296
    → read_units fuel (units nalus) ≡ some nalus
read_units-units fuel [] enough small = read_units_nil fuel
read_units-units zero (nalu ∷ nalus) enough small = absurd (omega arith)
read_units-units (suc fuel) (nalu ∷ nalus) enough small =
    rw
      (
        read_units-cons fuel nalu (units nalus) (omega arith),
        read_units-units fuel nalus (omega arith) (omega arith),
      )
      refl

-- What a player makes of the body of a frame.
pub decode_frame : AvPacket → Option (List Bytes)
decode_frame pkt = read_units (length pkt.payload) (drop 5 pkt.payload)

pub length-units : (nalus : List Bytes) → length (units nalus) ≡ units_size nalus
unfolding put_uint32
length-units [] = refl
length-units (nalu ∷ nalus) = omega (arith, length-append nalu (units nalus), length-units nalus)

length-le-units_size : (nalus : List Bytes) → length nalus ≤ units_size nalus
length-le-units_size [] = omega arith
length-le-units_size (nalu ∷ nalus) = omega (arith, length-le-units_size nalus)

pub drop-header :
    (a b : ℕ) (three xs : Bytes) → length three ≡ 3 → drop 5 ((a ∷ b ∷ three) ++ xs) ≡ xs
drop-header a b [] xs e = absurd (omega arith)
drop-header a b (x ∷ []) xs e = absurd (omega arith)
drop-header a b (x ∷ y ∷ []) xs e = absurd (omega arith)
drop-header a b (x ∷ y ∷ z ∷ []) xs e = refl
drop-header a b (x ∷ y ∷ z ∷ w ∷ more) xs e = absurd (omega arith)

keyframe-frame_tag :
    (nalus : List Bytes) (rest : Bytes)
    → keyframe packet_video (frame_tag nalus ∷ rest) ≡ has_idr nalus
unfolding keyframe
keyframe-frame_tag nalus rest = ground arith

-- A frame that was built, with a body of less than 2^24 bytes, holds exactly the units that are kept,
-- in order, and it can be recorded with any 32-bit timestamp: its flag is the one that a reader of
-- the recording finds.
pub build_video_frame-decode_frame :
    (buf : Bytes) (nalus : List Bytes) (pkt : AvPacket) (ts : ℕ)
    → build_video_frame buf nalus ≡ some pkt
    → length pkt.payload < 16777216
    → ts < 4294967296
    → (decode_frame pkt ≡ some (filter_nalus nalus))
      × (pkt.is_keyframe ≡ has_idr nalus)
      × IsWritable (record pkt { timestamp = ts })
unfolding decode_frame
build_video_frame-decode_frame buf nalus pkt ts built small fits =
    let w = build_video_frame-IsFrame buf nalus pkt built in
    let kept = filter_nalus nalus in
    let three = take 3 (drop 2 (frame_buffer buf nalus)) in
    let is_three : length three ≡ 3 = length-stale buf kept in
    let size : length pkt.payload ≡ 5 + units_size kept =
      omega (arith, ap length w.laid_out, length-append three (units kept), length-units kept) in
    (
      rw (w.laid_out, drop-header (frame_tag nalus) 1 three (units kept) is_three)
          (read_units-units _ kept
            (omega (
              arith,
              length-append three (units kept),
              length-units kept,
              length-le-units_size kept,
            ))
            (omega arith)),
      w.is_key,
      record {
        type_fits = omega (arith, w.is_video);
        timestamp_fits = fits;
        payload_fits = small;
        flag_agrees = rw (w.laid_out, w.is_video, w.is_key) (sym (keyframe-frame_tag nalus _));
      },
    )
