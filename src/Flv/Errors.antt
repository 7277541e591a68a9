-- ===== src/Flv/Errors.antt =====
-- How reading and writing fail.
use cam_server.Base.{
  ℕ, zero, suc, ◌+◌, ◌≡◌, refl, sym, ◌∙◌, append-nil, ◌⊎◌, ap, Option, none, some, [], ◌∷◌, ◌++◌,
  length, length-append, ◌↔◌, arith, Option-cases, inl, inr,
}
use cam_server.Stream.Packet.{Bytes, AvPacket}
use cam_server.Flv.Writer.{tag_bytes}
use cam_server.Flv.Reader.{
  Result, ok, err, ReadError, FlvError, ◌>>=◌, eof, take_exact, short, read_full, data_len,
  read_packet, next, new_reader, bad_magic,
}
use cam_server.Flv.Reader
use cam_server.Flv.RoundTrip.{IsWritable, next-tag_bytes, next-nil}

take_exact-length :
    (n : ℕ) (src bs rest : Bytes)
    → take_exact n src ≡ some (bs, rest)
    → (src ≡ bs ++ rest) × (length bs ≡ n)
unfolding take_exact
take_exact-length zero src bs rest h = ground arith
take_exact-length (suc n) [] bs rest h = cc
take_exact-length (suc n) (b ∷ src) bs rest h = elim (Option-cases (take_exact n src)) [
  | inl e ↦
      let stuck : ◌≡◌ {A = Option (Bytes × Bytes)} none (some (bs, rest)) =
        rw (e, take_exact) at h in
      cc
  | inr (r, e) ↦ let ih = take_exact-length n src r.0 r.1 e in ground (arith, ih)
]

-- A successful bind, taken apart.
bind_ok {ℓ κ} :
    {A : Type ℓ} {B : Type κ} {value : B} (call : Result A) (rest : A → Result B)
    → (call >>= rest) ≡ ok value
    → (x : A) × (call ≡ ok x) × (rest x ≡ ok value)
bind_ok (ok x) rest h = (x, refl, h)
bind_ok (err why) rest h = cc

read_full_ok :
    (wrap : ReadError → FlvError) (n : ℕ) (src : Bytes) {r : Bytes × Bytes}
    → read_full wrap n src ≡ ok r
    → take_exact n src ≡ some r
unfolding read_full
read_full_ok wrap n src h = ground arith

take_exact-extend :
    (n : ℕ) (src more : Bytes) {bs rest : Bytes}
    → take_exact n src ≡ some (bs, rest)
    → take_exact n (src ++ more) ≡ some (bs, rest ++ more)
unfolding take_exact
take_exact-extend zero src more h = ground arith
take_exact-extend (suc n) [] more h = cc
take_exact-extend (suc n) (b ∷ src) more {bs} {rest} h = elim (Option-cases (take_exact n src)) [
  | inl e ↦
      let stuck : ◌≡◌ {A = Option (Bytes × Bytes)} none (some (bs, rest)) =
        rw (e, take_exact) at h in
      cc
  | inr (r, e) ↦ ground (arith, take_exact-extend n src more e)
]

read_full-extend :
    (wrap : ReadError → FlvError) (n : ℕ) (src more : Bytes) {bs rest : Bytes}
    → read_full wrap n src ≡ ok (bs, rest)
    → read_full wrap n (src ++ more) ≡ ok (bs, rest ++ more)
unfolding read_full
read_full-extend wrap n src more h =
    rw (take_exact-extend n src more (read_full_ok wrap n src h), read_full)

read_full-length :
    (wrap : ReadError → FlvError) (n : ℕ) (src : Bytes) {r : Bytes × Bytes}
    → read_full wrap n src ≡ ok r
    → (length src ≡ n + length r.1) × (length r.0 ≡ n)
read_full-length wrap n src {r} h =
    let (split, size) = take_exact-length n src r.0 r.1 (read_full_ok wrap n src h) in
    omega (arith, ap length split, length-append r.0 r.1)

-- What `Next` has read when it succeeds.
record Parts (src : Bytes) (pkt : AvPacket) (rest : Bytes) : Type 0 where
  header : Bytes × Bytes
  body : Bytes × Bytes
  trailer : Bytes × Bytes
  header_read : read_full Reader.tag_header 11 src ≡ ok header
  body_read : read_full Reader.tag_data (data_len header.0) header.1 ≡ ok body
  trailer_read : read_full Reader.tag_size 4 body.1 ≡ ok trailer
  pkt_read : pkt ≡ read_packet header.0 body.0
  rest_left : rest ≡ trailer.1

next_ok :
    (src : Bytes) {pkt : AvPacket} {rest : Bytes} → next src ≡ ok (pkt, rest) → Parts src pkt rest
unfolding next
next_ok src h =
    let (a, ea, ha) = bind_ok (read_full Reader.tag_header 11 src) _ h in
    let (b, eb, hb) = bind_ok (read_full Reader.tag_data (data_len a.0) a.1) _ ha in
    let (c, ec, hc) = bind_ok (read_full Reader.tag_size 4 b.1) _ hb in
    record {
      header = a;
      body = b;
      trailer = c;
      header_read = ea;
      body_read = eb;
      trailer_read = ec;
      pkt_read = cc;
      rest_left = cc;
    }

next_of_Parts :
    (src : Bytes) {pkt : AvPacket} {rest : Bytes} → Parts src pkt rest → next src ≡ ok (pkt, rest)
unfolding next
next_of_Parts src p = rw (p.header_read, p.body_read, p.trailer_read, p.pkt_read, p.rest_left)

-- What `Next` reads from some bytes, it reads from those bytes with more behind them.
next-extend :
    (src more : Bytes) {pkt : AvPacket} {rest : Bytes}
    → next src ≡ ok (pkt, rest)
    → next (src ++ more) ≡ ok (pkt, rest ++ more)
next-extend src more h =
    let p = next_ok src h in
    next_of_Parts (src ++ more) (record {
      header = (p.header.0, p.header.1 ++ more);
      body = (p.body.0, p.body.1 ++ more);
      trailer = (p.trailer.0, p.trailer.1 ++ more);
      header_read = read_full-extend Reader.tag_header 11 src more p.header_read;
      body_read =
          read_full-extend Reader.tag_data (data_len p.header.0) p.header.1 more p.body_read;
      trailer_read = read_full-extend Reader.tag_size 4 p.body.1 more p.trailer_read;
      pkt_read = p.pkt_read;
      rest_left = ap (λ r. r ++ more) p.rest_left;
    })

Result-cases {ℓ} :
    {A : Type ℓ} (r : Result A) → ((a : A) × (r ≡ ok a)) ⊎ ((e : FlvError) × (r ≡ err e))
Result-cases (ok a) = inl (a, refl)
Result-cases (err e) = inr (e, refl)

abbrev rest_of : Result (AvPacket × Bytes) → Bytes
rest_of (ok (pkt, rest)) = rest
rest_of (err e) = []

too_long : (xs : Bytes) (b : ℕ) (ys : Bytes) → xs ++ b ∷ ys ≡ [] → ⊥
too_long [] b ys h = cc
too_long (x ∷ xs) b ys h = cc

bind_err :
    (r : Result (Bytes × Bytes)) (f : Bytes × Bytes → Result (AvPacket × Bytes)) {e : FlvError}
    → (r >>= f) ≡ err e
    → (r ≡ err e) ⊎ ((a : Bytes × Bytes) × (f a ≡ err e))
bind_err (ok a) f h = inr (a, h)
bind_err (err x) f h = inl (ground arith)

read_full_err :
    (wrap : ReadError → FlvError) (n : ℕ) (src : Bytes) {e : FlvError}
    → read_full wrap n src ≡ err e
    → e ≡ wrap (short src)
unfolding read_full
read_full_err wrap n src h = ground arith

short_eof : (src : Bytes) → Reader.tag_header (short src) ≡ Reader.tag_header eof → src ≡ []
short_eof [] h = refl
short_eof (b ∷ src) h = cc

eof_only : (src : Bytes) → next src ≡ err (Reader.tag_header eof) → src ≡ []
unfolding next
eof_only src h = elim (bind_err (read_full Reader.tag_header 11 src) _ h) [
  | inl e ↦ short_eof src (sym (read_full_err Reader.tag_header 11 src e))
  | inr (a, ha) ↦ elim (bind_err (read_full Reader.tag_data (data_len a.0) a.1) _ ha) [
    | inl e ↦ let wrong = read_full_err Reader.tag_data (data_len a.0) a.1 e in cc
    | inr (b, hb) ↦ elim (bind_err (read_full Reader.tag_size 4 b.1) _ hb) [
      | inl e ↦ let wrong = read_full_err Reader.tag_size 4 b.1 e in cc
      | inr (c, hc) ↦ cc
    ]
  ]
]

-- A packet that `Next` returns has used up exactly its header, its payload and the four bytes
-- behind it.
pub next-length :
    (src : Bytes) {pkt : AvPacket} {rest : Bytes}
    → next src ≡ ok (pkt, rest)
    → length src ≡ 15 + length pkt.payload + length rest
unfolding read_packet
next-length src {pkt} {rest} h =
    let p = next_ok src h in
    omega (
      arith,
      ap (λ (q : AvPacket). length q.payload) p.pkt_read,
      ap length p.rest_left,
      read_full-length Reader.tag_header 11 src p.header_read,
      read_full-length Reader.tag_data (data_len p.header.0) p.header.1 p.body_read,
      read_full-length Reader.tag_size 4 p.body.1 p.trailer_read,
    )

-- `Next` reports a clean end of the stream exactly when no byte is left.
pub next-eof_iff : (src : Bytes) → (next src ≡ err (Reader.tag_header eof)) ↔ (src ≡ [])
next-eof_iff src = (eof_only src, λ e. rw e next-nil)

-- A tag that is cut short is never read as a packet, whatever proper part of it is there: `Next`
-- returns an error, and not the clean end of the stream unless nothing of the tag is there.
pub next_truncated :
    (pkt : AvPacket) (src : Bytes) (b : ℕ) (missing : Bytes)
    → IsWritable pkt
    → src ++ b ∷ missing ≡ tag_bytes pkt
    → (e : FlvError) × (next src ≡ err e) × (e ≡ Reader.tag_header eof → src ≡ [])
next_truncated pkt src b missing w cut = elim (Result-cases (next src)) [
  | inl (r, e) ↦
      absurd (too_long r.1 b missing (ap rest_of (sym (next-extend src (b ∷ missing) e) ∙ whole)))
  | inr (x, e) ↦ (x, e, λ clean. eof_only src (rw (← clean) e))
]
  where
    whole : next (src ++ b ∷ missing) ≡ ok (pkt, [])
    whole = rw (cut, ← append-nil (tag_bytes pkt)) (next-tag_bytes pkt [] w)
