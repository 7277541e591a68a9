-- ===== src/Flv/Serialise.antt =====
-- What `WriteTag` of internal/flv/writer.go has written when it returns no error.
use cam_server.Base.{◌≡◌, refl, Option, none, some, String, ◌++◌, append_assoc}
use cam_server.Stream.Packet.{Bytes, AvPacket}
use cam_server.Flv.Writer.{Writer, tag_bytes, write_tag, and_then}

module _ (io : Writer) where
  open io use {State, write, written, write_appends}

  -- A call that returns no error has appended `bs`.
  abbrev Appends : State → Bytes → State × Option String → Type 0
  Appends w bs r = r.1 ≡ none → written r.0 ≡ written w ++ bs

  and_then-Appends :
      (w : State) (head bs : Bytes) (r : State × Option String)
      (rest : State → State × Option String)
      → Appends w head r
      → ((w' : State) → Appends w' bs (rest w'))
      → Appends w (head ++ bs) (and_then r rest)
  and_then-Appends w head bs (w', none) rest first second h =
      rw (second w' h, first refl, append_assoc)
  and_then-Appends w head bs (w', some e) rest first second h = cc

  -- Whenever `WriteTag` returns no error, exactly the bytes of the whole tag have been appended
  -- to what was written before.
  pub write_tag-tag_bytes :
      (w : State) (pkt : AvPacket)
      → (write_tag io w pkt).1 ≡ none
      → written (write_tag io w pkt).0 ≡ written w ++ tag_bytes pkt
  unfolding write_tag tag_bytes
  write_tag-tag_bytes w pkt =
      and_then-Appends w _ _ _ _ (write_appends w _)
        λ w1. and_then-Appends w1 _ _ _ _ (write_appends w1 _) λ w2. write_appends w2 _
