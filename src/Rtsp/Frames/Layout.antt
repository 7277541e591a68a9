-- ===== src/Rtsp/Frames/Layout.antt =====
-- What stands in the body of a packet that a builder made.
use cam_server.Base.{
  ℕ, zero, suc, ◌+◌, ◌≤◌, ◌≡◌, refl, ap, none, some, List, [], ◌∷◌, ◌++◌, length, length-append,
  length-drop, take, drop, append_assoc, append-nil, arith, if◌then◌else◌, List-cases, inl, inr,
}
use cam_server.Rtsp.Frames.{
  copy_at, put_uint32, filter_nalus, has_idr, total_size, put_nalus, build_video_frame,
}
use cam_server.Stream.Packet.{Bytes, AvPacket, packet_video}
use cam_server.Stream.Pool.{zeros, new_data}

pub copy_at-zero :
    (bs rest : Bytes) → length bs ≤ length rest → copy_at 0 bs rest ≡ bs ++ drop (length bs) rest
unfolding copy_at
copy_at-zero [] rest h = refl
copy_at-zero (b ∷ bs) [] h = absurd (omega arith)
copy_at-zero (b ∷ bs) (r ∷ rest) h = ap (λ xs. b ∷ xs) (copy_at-zero bs rest (omega arith))

-- A copy into the place behind `pre` overwrites what stood there.
pub copy_at-append :
    (n : ℕ) (pre bs rest : Bytes)
    → n ≡ length pre
    → length bs ≤ length rest
    → copy_at n bs (pre ++ rest) ≡ pre ++ (bs ++ drop (length bs) rest)
unfolding copy_at
copy_at-append zero [] bs rest e h = copy_at-zero bs rest h
copy_at-append zero (x ∷ pre) bs rest e h = absurd (omega arith)
copy_at-append (suc n) [] bs rest e h = absurd (omega arith)
copy_at-append (suc n) (x ∷ pre) bs rest e h =
    ap (λ xs. x ∷ xs) (copy_at-append n pre bs rest (omega arith) h)

drop_all : (n : ℕ) (xs : Bytes) → length xs ≤ n → drop n xs ≡ []
drop_all zero [] h = refl
drop_all (suc n) [] h = refl
drop_all zero (x ∷ xs) h = absurd (omega arith)
drop_all (suc n) (x ∷ xs) h = drop_all n xs (omega arith)

-- A copy that fills all the place behind `pre`.
pub copy_at-fill :
    (n : ℕ) (pre bs rest : Bytes)
    → n ≡ length pre
    → length rest ≡ length bs
    → copy_at n bs (pre ++ rest) ≡ pre ++ bs
copy_at-fill n pre bs rest e h =
    rw
      (
        copy_at-append n pre bs rest e (omega arith),
        drop_all (length bs) rest (omega arith),
        append-nil bs,
      )
      refl

pub length-zeros : (n : ℕ) → length (zeros n) ≡ n
unfolding zeros
length-zeros zero = refl
length-zeros (suc n) = omega (arith, length-zeros n)

length-take_all : (n : ℕ) (xs : Bytes) → n ≤ length xs → length (take n xs) ≡ n
length-take_all zero xs h = refl
length-take_all (suc n) [] h = absurd (omega arith)
length-take_all (suc n) (x ∷ xs) h = omega (arith, length-take_all n xs)

pub length-new_data : (n : ℕ) (buf : Bytes) → length (new_data n buf) ≡ n
unfolding new_data
length-new_data n buf = ground (arith, length-zeros n, length-take_all n buf)

-- Each unit behind its length, of four bytes.
abbrev pub units : List Bytes → Bytes
units [] = []
units (nalu ∷ nalus) = put_uint32 (length nalu) ++ (nalu ++ units nalus)

abbrev pub units_size : List Bytes → ℕ
units_size [] = 0
units_size (nalu ∷ nalus) = 4 + length nalu + units_size nalus

pub total_size-units_size : (n : ℕ) (nalus : List Bytes) → total_size n nalus ≡ n + units_size nalus
unfolding total_size
total_size-units_size n [] = omega arith
total_size-units_size n (nalu ∷ nalus) =
    omega (arith, total_size-units_size (n + (4 + length nalu)) nalus)

length-put_uint32 : (n : ℕ) → length (put_uint32 n) ≡ 4
unfolding put_uint32
length-put_uint32 n = refl

pub put_nalus-append :
    (n : ℕ) (pre rest : Bytes) (nalus : List Bytes)
    → n ≡ length pre
    → length rest ≡ units_size nalus
    → put_nalus n nalus (pre ++ rest) ≡ pre ++ units nalus
unfolding put_nalus
put_nalus-append n pre [] [] e h = refl
put_nalus-append n pre (r ∷ rest) [] e h = absurd (omega arith)
put_nalus-append n pre rest (nalu ∷ nalus) e h =
    let four = length-put_uint32 (length nalu) in
    let size = put_uint32 (length nalu) in
    let after_size = drop (length size) rest in
    let pre4 = pre ++ size in
    let length_pre4 : length pre4 ≡ n + 4 = omega (arith, length-append pre size, four) in
    let length_after : length after_size ≡ length nalu + units_size nalus =
      omega (arith, length-drop (length size) rest, four) in
    let joined1 : (pre ++ size) ++ after_size ≡ pre ++ (size ++ after_size) = simp append_assoc in
    let joined2 : (pre4 ++ nalu) ++ drop (length nalu) after_size
        ≡ pre4 ++ (nalu ++ drop (length nalu) after_size) =
      simp append_assoc in
    rw
      (
        copy_at-append n pre size rest e (omega arith),
        ← joined1,
        copy_at-append (n + 4) pre4 nalu after_size (omega arith) (omega arith),
        ← joined2,
        put_nalus-append (n + 4 + length nalu) (pre4 ++ nalu) (drop (length nalu) after_size) nalus
            (omega (arith, length-append pre4 nalu))
            (omega (arith, length-drop (length nalu) after_size)),
      )
      (simp append_assoc)

-- The first two bytes are written, the next three are what the buffer held.
pub copy_at-header :
    (a b : ℕ) (body : Bytes)
    → 5 ≤ length body
    → copy_at 0 (a ∷ b ∷ []) body ≡ (a ∷ b ∷ take 3 (drop 2 body)) ++ drop 5 body
unfolding copy_at
copy_at-header a b [] h = absurd (omega arith)
copy_at-header a b (x0 ∷ []) h = absurd (omega arith)
copy_at-header a b (x0 ∷ x1 ∷ []) h = absurd (omega arith)
copy_at-header a b (x0 ∷ x1 ∷ x2 ∷ []) h = absurd (omega arith)
copy_at-header a b (x0 ∷ x1 ∷ x2 ∷ x3 ∷ []) h = absurd (omega arith)
copy_at-header a b (x0 ∷ x1 ∷ x2 ∷ x3 ∷ x4 ∷ rest) h = refl

pub length-header : (body : Bytes) → 5 ≤ length body → length (take 3 (drop 2 body)) ≡ 3
length-header body h = length-take_all 3 (drop 2 body) (omega (arith, length-drop 2 body))

-- The three bytes of the composition time are there.
pub length-stale :
    (buf : Bytes) (kept : List Bytes)
    → length (take 3 (drop 2 (new_data (5 + units_size kept) buf))) ≡ 3
length-stale buf kept =
    length-header (new_data (5 + units_size kept) buf)
      (omega (arith, length-new_data (5 + units_size kept) buf))

-- The buffer of a frame with these units.
abbrev pub frame_buffer : Bytes → List Bytes → Bytes
frame_buffer buf nalus = new_data (5 + units_size (filter_nalus nalus)) buf

abbrev pub frame_tag : List Bytes → ℕ
frame_tag nalus = if has_idr nalus then 0x17 else 0x27

frame_payload :
    (tag : ℕ) (buf : Bytes) (kept : List Bytes)
    → put_nalus 5 kept (copy_at 0 (tag ∷ 1 ∷ []) (new_data (total_size 5 kept) buf))
      ≡ (tag ∷ 1 ∷ take 3 (drop 2 (new_data (5 + units_size kept) buf))) ++ units kept
frame_payload tag buf kept =
    let body = new_data (5 + units_size kept) buf in
    let enough : length body ≡ 5 + units_size kept = length-new_data (5 + units_size kept) buf in
    let three : length (take 3 (drop 2 body)) ≡ 3 = length-header body (omega arith) in
    rw (total_size-units_size 5 kept, copy_at-header tag 1 body (omega arith))
      (put_nalus-append 5 (tag ∷ 1 ∷ take 3 (drop 2 body)) (drop 5 body) kept (omega arith)
        (omega (arith, length-drop 5 body)))

-- What is in a frame that was built.
pub record IsFrame (buf : Bytes) (nalus : List Bytes) (pkt : AvPacket) : Type 0 where
  pub is_video : pkt.packet_type ≡ packet_video
  pub unset_time : pkt.timestamp ≡ 0
  pub is_key : pkt.is_keyframe ≡ has_idr nalus
  pub laid_out :
      pkt.payload
      ≡ (frame_tag nalus ∷ 1 ∷ take 3 (drop 2 (frame_buffer buf nalus)))
        ++ units (filter_nalus nalus)

-- The packet, for the units that are kept.
abbrev frame_of : Bytes → List Bytes → List Bytes → AvPacket
frame_of buf nalus kept = record {
  packet_type = packet_video;
  timestamp = 0;
  is_keyframe = has_idr nalus;
  payload =
      (frame_tag nalus ∷ 1 ∷ take 3 (drop 2 (new_data (5 + units_size kept) buf))) ++ units kept;
}

build_video_frame-some :
    (buf : Bytes) (nalus : List Bytes) (first : Bytes) (rest : List Bytes)
    → filter_nalus nalus ≡ first ∷ rest
    → build_video_frame buf nalus ≡ some (frame_of buf nalus (filter_nalus nalus))
unfolding build_video_frame
build_video_frame-some buf nalus first rest e =
    rw (e, build_video_frame, frame_payload (frame_tag nalus) buf (first ∷ rest)) refl

build_video_frame-none :
    (buf : Bytes) (nalus : List Bytes)
    → filter_nalus nalus ≡ []
    → build_video_frame buf nalus ≡ none
unfolding build_video_frame
build_video_frame-none buf nalus e = rw (e, build_video_frame) refl

-- A frame is built exactly where a unit is kept, and then it is laid out so.
pub build_video_frame-IsFrame :
    (buf : Bytes) (nalus : List Bytes) (pkt : AvPacket)
    → build_video_frame buf nalus ≡ some pkt
    → IsFrame buf nalus pkt
build_video_frame-IsFrame buf nalus pkt built = elim (List-cases (filter_nalus nalus)) [
  | inl e ↦ let missing = build_video_frame-none buf nalus e in absurd (ground arith)
  | inr (first, rest, e) ↦
      let made = build_video_frame-some buf nalus first rest e in
      let same : pkt ≡ frame_of buf nalus (filter_nalus nalus) = cc in
      rw same (record { is_video = refl; unset_time = refl; is_key = refl; laid_out = refl })
]
