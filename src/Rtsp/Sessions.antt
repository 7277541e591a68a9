-- ===== src/Rtsp/Sessions.antt =====
-- `IngestManager` of internal/rtsp/ingester.go: the sessions by stream key, and the goroutines that run
-- `ingest`, each of which is known by a number. What a goroutine does between two locks is one action, and a
-- list of actions is one order in which the process may run.
pub mod Stages
pub mod Ownership
pub mod Teardown
use cam_server.Base.{
  ℕ, zero, suc, ◌+◌, ◌==◌, Bool, true, false, String, Option, none, some, List, [], ◌∷◌, GoMap,
  lookup, insert, delete, if◌then◌else◌,
}
use cam_server.Stream.Manager.{StreamManager, register, unregister}
use cam_server.Stream.Pool.{Pool}

-- Where a goroutine stands: before `Register`, behind it, at its `return`, and between the two deferred calls.
pub data Stage : Type 0 where
  dialing : Stage
  serving : Stage
  returned : Stage
  unregistering : Stage
  ended : Stage

pub record Ingest : Type 0 where
  pub key : String
  pub stage : Stage
  pub cancelled : Bool

-- `IngestManager`, with the stream manager, the pool and the goroutines.
pub record World : Type 0 where
  pub sessions : GoMap ℕ
  pub manager : StreamManager
  pub pool : Pool
  pub ingests : ℕ → Ingest
  pub next : ℕ

abbrev pub update : ℕ → Ingest → (ℕ → Ingest) → ℕ → Ingest
update g x ingests h = if h == g then x else ingests h

abbrev pub to_stage : ℕ → Stage → World → World
to_stage g stage w = record w {
  ingests = update g (record (w.ingests g) { stage = stage }) w.ingests;
}

-- `Start`
unfoldable pub start : String → World → World
start key w = elim (lookup key w.sessions) [
  | some _ ↦ w
  | none ↦ record w {
    sessions = insert key w.next w.sessions;
    ingests = update w.next (record { key = key; stage = dialing; cancelled = false }) w.ingests;
    next = suc w.next;
  }
]

-- `Stop`
unfoldable pub stop : String → World → World
stop key w = elim (lookup key w.sessions) [
  | none ↦ w
  | some g ↦ record w {
    sessions = delete key w.sessions;
    ingests = update g (record (w.ingests g) { cancelled = true }) w.ingests;
  }
]

-- A return before `Register`.
unfoldable pub give_up : ℕ → World → World
give_up g w = elim (w.ingests g).stage [ dialing ↦ to_stage g returned w | other ↦ w ]

-- The call of `Register`, and the return after its error.
unfoldable pub try_register : String → ℕ → World → World
try_register node_id g w = elim (w.ingests g).stage [
  | dialing ↦ elim (register (w.ingests g).key node_id w.manager) [
    | none ↦ to_stage g returned w
    | some (manager, hooks) ↦ to_stage g serving (record w { manager = manager })
  ]
  | other ↦ w
]

-- A return behind `Register`: an error, a context that is cancelled, or the end of what is pulled.
unfoldable pub leave : ℕ → World → World
leave g w = elim (w.ingests g).stage [ serving ↦ to_stage g returned w | other ↦ w ]

-- The deferred `m.remove(streamKey)`, which runs first.
unfoldable pub remove : ℕ → World → World
remove g w = elim (w.ingests g).stage [
  | returned ↦
      to_stage g unregistering (record w { sessions = delete (w.ingests g).key w.sessions })
  | other ↦ w
]

-- The deferred `m.manager.Unregister(streamKey)`.
unfoldable pub unregister_stream : ℕ → World → World
unregister_stream g w = elim (w.ingests g).stage [
  | unregistering ↦
      let (manager, pool, hooks) = unregister (w.ingests g).key w.manager w.pool in
      to_stage g ended (record w { manager = manager; pool = pool })
  | other ↦ w
]

pub data Action : Type 0 where
  starts : String → Action
  stops : String → Action
  gives_up : ℕ → Action
  registers : ℕ → Action
  leaves : ℕ → Action
  removes : ℕ → Action
  unregisters : ℕ → Action

unfoldable pub act : String → Action → World → World
unfolding start stop give_up try_register leave remove unregister_stream
act node_id (starts key) w = start key w
act node_id (stops key) w = stop key w
act node_id (gives_up g) w = give_up g w
act node_id (registers g) w = try_register node_id g w
act node_id (leaves g) w = leave g w
act node_id (removes g) w = remove g w
act node_id (unregisters g) w = unregister_stream g w

-- The world after a list of actions.
unfoldable pub run : String → List Action → World → World
run node_id [] w = w
run node_id (a ∷ later) w = run node_id later (act node_id a w)

-- No session, no stream and no goroutine.
abbrev pub idle_world : Pool → World
idle_world pool = record {
  sessions = [];
  manager = record { streams = [] };
  pool = pool;
  ingests = λ g. record { key = ""; stage = ended; cancelled = false };
  next = 0;
}
