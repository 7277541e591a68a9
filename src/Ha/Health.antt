-- ===== src/Ha/Health.antt =====
-- internal/ha/health.go: what the monitor says of the process from its dependencies.
pub mod Degraded
use cam_server.Base.{
  ℕ, Bool, true, false, ◌&&◌, String, Option, none, some, List, [], ◌∷◌, map, if◌then◌else◌,
}

-- `Dependency`, with what its check returns and how many milliseconds it takes; `none` where it is nil.
pub record Dependency : Type 0 where
  pub name : String
  pub required : Bool
  pub check : Option (ℕ × Option String)

-- `DependencyResult`, where the status "up" is `true`.
pub record DependencyResult : Type 0 where
  pub name : String
  pub required : Bool
  pub up : Bool
  pub latency_ms : ℕ
  pub error : String

pub data HealthMode : Type 0 where
  mode_normal : HealthMode
  mode_degraded_control_plane : HealthMode

-- `Snapshot`
pub record Snapshot : Type 0 where
  pub status : String
  pub mode : HealthMode
  pub checked_at : ℕ
  pub dependencies : List DependencyResult

-- The goroutine of one dependency; each writes a place of its own.
unfoldable pub check_dependency : Dependency → DependencyResult
check_dependency d = elim d.check [
  | none ↦ record {
    name = d.name;
    required = d.required;
    up = false;
    latency_ms = 0;
    error = "dependency check function is nil";
  }
  | some (latency_ms, e) ↦ elim e [
    | none ↦ record {
      name = d.name;
      required = d.required;
      up = true;
      latency_ms = latency_ms;
      error = "";
    }
    | some why ↦ record {
      name = d.name;
      required = d.required;
      up = false;
      latency_ms = latency_ms;
      error = why;
    }
  ]
]

-- The loop that looks for a required dependency that is down.
unfoldable pub any_down : List DependencyResult → Bool
any_down [] = false
any_down (r ∷ rs) =
    let rest = any_down rs in if r.required && (if r.up then false else true) then true else rest

-- `Monitor.Snapshot`, at a time.
unfoldable pub snapshot : ℕ → List Dependency → Snapshot
snapshot now [] = record {
  status = "healthy";
  mode = mode_normal;
  checked_at = now;
  dependencies = [];
}
snapshot now (d ∷ deps) =
    let results = map check_dependency (d ∷ deps) in
    if any_down results
    then record {
      status = "degraded";
      mode = mode_degraded_control_plane;
      checked_at = now;
      dependencies = results;
    }
    else record { status = "healthy"; mode = mode_normal; checked_at = now; dependencies = results }
