-- ===== src/Tests/Streams.antt =====
-- A stream with a livestream viewer and a recorder: internal/stream/fanout.go and
-- internal/subscriber/.
use cam_server.Base.{
  ℕ, ◌%◌, ◌+◌, ◌≡◌, ◌≤◌, refl, Bool, true, false, some, String, List, [], ◌∷◌, length, lookup,
  Distinct, ◌==◌, arith,
}
use cam_server.Stream.Fanout
use cam_server.Stream.Fanout.{LiveStream, ingest_packet, remove_subscriber}
use cam_server.Stream.Fanout.Balance.{IsBalanced, holders, Closed, close-IsBalanced}
use cam_server.Stream.Fanout.Dropped.{
  StreamCall, pumped, removed, consumed, finished, acquired, ingested, ended, AllApart, Lost,
  run_calls, ingest_packet-Lost,
}
use cam_server.Stream.Fanout.Pumped.{Pumped}
use cam_server.Stream.Packet.{AvPacket}
use cam_server.Stream.Pool.{Pool, acquire, count, one}
use cam_server.Subscriber.Defs.{Subscriber, live, buffered, storage, held, storage_buf_size}
use cam_server.Subscriber.Gop.{cache_after, cache_after-group}

-- Every third packet is a video keyframe.
abbrev info : ℕ → AvPacket
info p = record { packet_type = 9; timestamp = p; is_keyframe = p % 3 == 0; payload = [] }

abbrev sent : String → ℕ → Bool
sent id p = true

abbrev viewer : Subscriber
viewer = live (record { gop = 0 ∷ []; live_dropped = 0 })

abbrev recorder : Subscriber
recorder = buffered (record {
  kind = storage;
  capacity = storage_buf_size;
  queue = [];
  dropped = 0;
  running = true;
})

abbrev stream : LiveStream
stream = record {
  key = "cam1/main";
  subs = ("viewer", viewer) ∷ ("recorder", recorder) ∷ [];
  ingest = 1 ∷ [];
  closed = false;
  packets_total = 1;
}

abbrev nothing : ℕ → ℕ
nothing q = 0

-- One reference for the viewer's packet and one for the packet that waits.
abbrev pool : Pool
pool = record { refs = λ q. one q 0 + one q 1; free = [] }

stream-IsBalanced : IsBalanced nothing stream pool
unfolding count held
stream-IsBalanced q = ground arith

stream-Distinct : Distinct stream.subs
unfolding lookup
stream-Distinct = (refl, (refl, tt))

viewer_found : lookup "viewer" stream.subs ≡ some viewer
unfolding lookup
viewer_found = refl

unheld : holders 2 stream ≡ 0
unfolding count held
unheld = refl

abbrev closed_stream : LiveStream
closed_stream = record stream { closed = true }

-- The recorder and the viewer work on and go while another packet comes.
abbrev calls : List StreamCall
calls =
    pumped sent
    ∷ acquired 3
    ∷ ingested 3
    ∷ consumed "recorder"
    ∷ removed "viewer"
    ∷ finished "recorder"
    ∷ ended
    ∷ []

calls-AllApart : AllApart 2 calls
calls-AllApart = ground arith

count_free : count 2 pool.free ≤ 1
unfolding count
count_free = omega arith

ingest_packet-Lost_example :
    let first = ingest_packet 2 closed_stream (acquire 2 pool) in
    let last = run_calls info calls first.0 first.1 in Lost 2 first.0 first.1 × Lost 2 last.0 last.1
ingest_packet-Lost_example =
    ingest_packet-Lost info 2 closed_stream pool calls refl unheld count_free calls-AllApart

close-IsBalanced_example :
    Closed stream pool (Fanout.close stream pool).0 (Fanout.close stream pool).1
    × IsBalanced nothing (Fanout.close stream pool).0 (Fanout.close stream pool).1
close-IsBalanced_example = close-IsBalanced nothing stream pool (refl, (refl, tt)) stream-IsBalanced

cache_after-group_example :
    (cache_after info [] pool (1 ∷ 3 ∷ 4 ∷ 5 ∷ []) ≡ 3 ∷ 4 ∷ 5 ∷ [])
    × (length (cache_after info [] pool (1 ∷ 3 ∷ 4 ∷ 5 ∷ [])) ≤ 256)
cache_after-group_example = cache_after-group info (1 ∷ 3 ∷ 4 ∷ 5 ∷ []) pool
