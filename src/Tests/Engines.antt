-- ===== src/Tests/Engines.antt =====
-- An engine with no entries, and a stream that comes up in time: internal/stream/engine.go.
use cam_server.Base.{
  ◌+◌, ◌*◌, ◌≡◌, refl, true, false, none, some, String, [], Result, ok, err, arith, lookup,
}
use cam_server.Stream.Engine.{
  starting, add_entry, set_state, drop_entry, start_stream, StreamKey, Engine, EngineError,
  no_ingest, start_failed, timed_out, live, stopped, requested, Surroundings, is_zero, running,
  state_of, ensure_stream, stop_stream,
}
use cam_server.Stream.Engine.Ensure
use cam_server.Stream.Engine.Ensure.{
  Dead, Runs, ensure_stream-returns, ensure_stream-live, ensure_stream-fails,
}
use cam_server.Stream.Engine.Entries.{IsEngine, Keeps, engine_calls-Keeps}
use cam_server.Stream.Fanout.{LiveStream, new_stream}
use cam_server.Stream.Manager.{StreamManager, get_stream}
use cam_server.Stream.Pool.{Pool}
use cam_server.Subscriber.Defs.{Subscriber, buffered, storage, storage_buf_size}

abbrev door : StreamKey
door = record { cam_id = "cam"; profile_id = "main" }

abbrev idle : Engine
idle = record {
  entries = [];
  heap = λ a. record { stream_id = ""; key = door; started_at = 0; state = requested };
  next = 0;
}

abbrev stream : LiveStream
stream = new_stream "cam/main"

-- The stream is there from the start of the wait on.
abbrev prompt : Surroundings
prompt = record {
  ingest = some none;
  seen_fast = none;
  seen_locked = none;
  begin = 100;
  clock = λ i. 100 + i * 60000000;
  seen = λ i. some stream;
}

abbrev after : Surroundings
after = record prompt { seen_fast = some stream }

door_proper : is_zero door ≡ false
unfolding is_zero
door_proper = refl

idle-Dead : Dead door prompt idle
unfolding running lookup
idle-Dead = (refl, refl)

ticking : Runs prompt
ticking = (omega arith, λ i. omega arith)

ensure_stream-returns_example :
    (r : Engine × Result EngineError (String × LiveStream)) × (ensure_stream 5 "id-1" door prompt
        idle
      ≡ some r)
ensure_stream-returns_example = ensure_stream-returns 5 "id-1" door prompt idle ticking

ensure_stream-live_example :
    (e' : Engine) × (s : LiveStream) × (ensure_stream 5 "id-1" door prompt idle
      ≡ some (e', ok ("id-1", s)))
    × (state_of door e' ≡ (live, "id-1", true))
    × (ensure_stream 9 "id-2" door after e' ≡ some (e', ok ("id-1", stream)))
ensure_stream-live_example =
    ensure_stream-live 5 9 "id-1" "id-2" door prompt after idle 0 stream door_proper idle-Dead
      ticking refl (omega arith) (λ e. cc) refl

-- No stream ever comes up.
abbrev silent : Surroundings
silent = record prompt { seen = λ i. none }

ensure_stream-fails_example :
    ((e' : Engine) × (ensure_stream 5 "id-1" door (Ensure.alone prompt) idle
        ≡ some (e', err no_ingest))
      × (state_of door e' ≡ (stopped, "", false)))
    × ((e' : Engine) × (ensure_stream 5 "id-1" door (Ensure.refused "refused" prompt) idle
          ≡ some (e', err (start_failed "refused")))
        × (state_of door e' ≡ (stopped, "", false)))
    × ((e' : Engine) × (ensure_stream 5 "id-1" door (Ensure.started silent) idle
          ≡ some (e', err timed_out))
        × (state_of door e' ≡ (stopped, "id-1", true)))
ensure_stream-fails_example =
    ensure_stream-fails 5 "id-1" "refused" door prompt silent idle door_proper idle-Dead idle-Dead
      ticking (λ k early. refl)

idle-IsEngine : IsEngine idle
unfolding lookup
idle-IsEngine = record {
  given = λ k a there. absurd (cc);
  apart = λ j k a there there'. absurd (cc);
}

-- The same without an ingest.
abbrev alone : Surroundings
alone = record prompt { ingest = none }

abbrev left_behind : Engine
left_behind =
    drop_entry door (set_state 0 stopped (set_state 0 starting (add_entry 5 "id-1" door idle)))

refused : ensure_stream 5 "id-1" door alone idle ≡ some (left_behind, err no_ingest)
unfolding ensure_stream is_zero running lookup start_stream
refused = refl

engine_calls-Keeps_example : Keeps door idle left_behind × Keeps door idle (stop_stream door idle).0
engine_calls-Keeps_example =
    engine_calls-Keeps 5 "id-1" door alone idle left_behind (err no_ingest) idle-IsEngine refused

abbrev viewer : Subscriber
viewer = buffered (record {
  kind = storage;
  capacity = storage_buf_size;
  queue = [];
  dropped = 0;
  running = true;
})

abbrev pool : Pool
pool = record { refs = λ p. 0; free = [] }

abbrev none_live : StreamManager
none_live = record { streams = [] }

key_free : get_stream "cam/main" none_live ≡ none
unfolding get_stream lookup
key_free = refl
