-- ===== src/Stream/Engine.antt =====
-- internal/stream/engine.go: the engine that starts the ingest of a stream and waits until it is live.
pub mod Waiting
pub mod Ensure
pub mod Entries
use Prim.Native.String.{◌++◌ as joined}
use cam_server.Base.{
  ℕ, zero, suc, ◌+◌, ◌==◌, Bool, true, false, ◌||◌, String, Option, none, some, GoMap, lookup,
  insert, delete, ltb, str_eq, Result, ok, err, if◌then◌else◌,
}
use cam_server.Stream.Fanout.{LiveStream}

-- `StreamKey`
pub record StreamKey : Type 0 where
  pub cam_id : String
  pub profile_id : String

-- `StreamKey.String`
abbrev pub text_of : StreamKey → String
text_of k = joined k.cam_id (joined "/" k.profile_id)

-- `StreamKey.IsZero`
unfoldable pub is_zero : StreamKey → Bool
is_zero k = str_eq k.cam_id "" || str_eq k.profile_id ""

-- `StreamState`
pub data StreamState : Type 0 where
  requested : StreamState
  starting : StreamState
  live : StreamState
  degraded : StreamState
  reconnecting : StreamState
  stopped : StreamState

-- `StreamEntry`
pub record StreamEntry : Type 0 where
  pub stream_id : String
  pub key : StreamKey
  pub started_at : ℕ
  pub state : StreamState

-- `Engine`: its entries are pointers, so a call that holds one sets its state wherever it stands.
pub record Engine : Type 0 where
  pub entries : GoMap ℕ
  pub heap : ℕ → StreamEntry
  pub next : ℕ

pub data EngineError : Type 0 where
  zero_key : EngineError
  no_ingest : EngineError
  start_failed : String → EngineError
  timed_out : EngineError

abbrev pub write {ℓ} : {A : Type ℓ} → ℕ → A → (ℕ → A) → ℕ → A
write at x heap a = if a == at then x else heap a

-- `setState`
unfoldable pub set_state : ℕ → StreamState → Engine → Engine
set_state a state e = record e { heap = write a (record (e.heap a) { state = state }) e.heap }

-- The entry that is made under the write lock, in place of one whose stream died.
unfoldable pub add_entry : ℕ → String → StreamKey → Engine → Engine
add_entry now id key e = record {
  entries = insert (text_of key) e.next e.entries;
  heap =
      write e.next (record { stream_id = id; key = key; started_at = now; state = requested })
        e.heap;
  next = suc e.next;
}

unfoldable pub drop_entry : StreamKey → Engine → Engine
drop_entry key e = record e { entries = delete (text_of key) e.entries }

-- What an entry and a lookup in the manager give a caller.
unfoldable pub running : StreamKey → Option LiveStream → Engine → Option (String × LiveStream)
running key seen e = elim (lookup (text_of key) e.entries) [
  | none ↦ none
  | some a ↦ elim seen [ none ↦ none | some s ↦ some ((e.heap a).stream_id, s) ]
]

-- The time that the loop waits at most, and the pause between two looks, in nanoseconds.
abbrev pub patience : ℕ
patience = 5000000000

abbrev pub pause : ℕ
pause = 50000000

module _ (clock : ℕ → ℕ) (seen : ℕ → Option LiveStream) where
  -- The loop of `EnsureStream` from its `i`-th round on, by fuel: `clock i` is the time that the round
  -- reads, `seen i` what the manager then has under the key. Without fuel there is no result; `some none`
  -- is the end of the loop at the deadline.
  unfoldable pub wait_for : ℕ → ℕ → ℕ → Option (Option LiveStream)
  wait_for zero deadline i = none
  wait_for (suc fuel) deadline i = elim (ltb (clock i) deadline) [
    | false ↦ some none
    | true ↦ elim (seen i) [ some s ↦ some (some s) | none ↦ wait_for fuel deadline (suc i) ]
  ]

-- How many rounds the loop can have.
abbrev pub rounds : ℕ
rounds = 101

-- What the loop's end makes of the entry at an address.
unfoldable pub finish_wait :
    ℕ → String → Option LiveStream → Engine → Engine × Result EngineError (String × LiveStream)
finish_wait a id none e = (set_state a stopped e, err timed_out)
finish_wait a id (some s) e = (set_state a live e, ok (id, s))

-- What the rest of the process does during a call: the result of `ingest.Start`, where there is an ingest,
-- what the manager has under the key at the two looks before the wait, and in the wait.
pub record Surroundings : Type 0 where
  pub ingest : Option (Option String)
  pub seen_fast : Option LiveStream
  pub seen_locked : Option LiveStream
  pub begin : ℕ
  pub clock : ℕ → ℕ
  pub seen : ℕ → Option LiveStream

-- `EnsureStream` from the new entry on.
unfoldable pub start_stream :
    ℕ
    → String
    → StreamKey
    → Surroundings
    → Engine
    → Option (Engine × Result EngineError (String × LiveStream))
start_stream now id key w e =
    let a = e.next in
    let e1 = set_state a starting (add_entry now id key e) in
    elim w.ingest [
      | none ↦ some (drop_entry key (set_state a stopped e1), err no_ingest)
      | some (some why) ↦ some (drop_entry key (set_state a stopped e1), err (start_failed why))
      | some none ↦ elim (wait_for w.clock w.seen rounds (w.begin + patience) 0) [
        | none ↦ none
        | some outcome ↦ some (finish_wait a id outcome e1)
      ]
    ]

-- `EnsureStream`, at a time and with a new identifier, in a call during which no other changes the entries.
unfoldable pub ensure_stream :
    ℕ
    → String
    → StreamKey
    → Surroundings
    → Engine
    → Option (Engine × Result EngineError (String × LiveStream))
ensure_stream now id key w e = elim (is_zero key) [
  | true ↦ some (e, err zero_key)
  | false ↦ elim (running key w.seen_fast e) [
    | some r ↦ some (e, ok r)
    | none ↦ elim (running key w.seen_locked e) [
      | some r ↦ some (e, ok r)
      | none ↦ start_stream now id key w e
    ]
  ]
]

-- `StopStream`, and whether it calls `ingest.Stop`, where there is an ingest.
unfoldable pub stop_stream : StreamKey → Engine → Engine × Bool
stop_stream key e = elim (lookup (text_of key) e.entries) [
  | none ↦ (e, false)
  | some a ↦ (set_state a stopped (drop_entry key e), true)
]

-- `State`
unfoldable pub state_of : StreamKey → Engine → StreamState × String × Bool
state_of key e = elim (lookup (text_of key) e.entries) [
  | none ↦ (stopped, "", false)
  | some a ↦ ((e.heap a).state, (e.heap a).stream_id, true)
]
