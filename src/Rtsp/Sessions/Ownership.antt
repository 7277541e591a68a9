-- ===== src/Rtsp/Sessions/Ownership.antt =====
-- Whom a session and a stream belong to, in every order of the actions.
use mathlib.Core.Path.{subst}
use cam_server.Base.{
  sym, ap, ◌∙◌, ℕ, ◌<◌, ◌≡◌, ◌≢◌, refl, String, some, List, [], ◌∷◌, lookup, insert, delete, arith,
  eq_iff, str_eq, lookup-insert, lookup-delete, Option-cases, inl, inr, Bool-cases,
}
use cam_server.Rtsp.Sessions.{
  dialing, serving, returned, unregistering, ended, World, to_stage, start, stop, give_up,
  try_register, leave, remove, unregister_stream, Action, starts, stops, gives_up, registers,
  leaves, removes, unregisters, act, run, idle_world,
}
use cam_server.Stream.Fanout.{LiveStream, new_stream}
use cam_server.Stream.Manager.{StreamManager, unregister}
use cam_server.Stream.Pool.{Pool}
use cam_server.Rtsp.Sessions.Stages.{
  is_born, stage_unborn, stage-Runs, stage-Owned, returned-IsWorld, give_up-cases, leave-cases,
  remove-cases, unregister_stream-cases, try_register-cases, Runs, Owned, IsWorld,
}

remove-IsWorld : (g : ℕ) (w : World) → IsWorld w → IsWorld (remove g w)
remove-IsWorld g w h = elim (remove-cases g w) [
  | inl e ↦ subst IsWorld (sym e) h
  | inr (at, e) ↦ subst IsWorld (sym e) (record {
    session_runs = λ key i there.
        let law = lookup-delete (w.ingests g).key key w.sessions in
        let before : lookup key w.sessions ≡ some i = ground (arith, law, there) in
        let differs : (w.ingests g).key ≢ key =
          λ same. ground (arith, law, there, (eq_iff (w.ingests g).key key).1 same) in
        let runs = h.session_runs key i before in
        stage-Runs key g i unregistering
          (record w { sessions = delete (w.ingests g).key w.sessions })
          (λ same. absurd (differs (ap (λ n. (w.ingests n).key) (sym same) ∙ runs.1))) runs;
    stream_owned = λ key s there.
        stage-Owned key g unregistering w (λ named. refl) (h.stream_owned key s there);
    unborn = stage_unborn g unregistering w h (is_born g returned w h at (λ e. cc));
  })
]

-- After `Register` the goroutine owns its key.
registered-IsWorld :
    (g : ℕ) (w : World)
    → g < w.next
    → IsWorld w
    → IsWorld (
        to_stage g serving (record w {
          manager = record {
            streams = insert (w.ingests g).key (new_stream (w.ingests g).key) w.manager.streams;
          };
        }))
registered-IsWorld g w known h = record {
  session_runs =
      λ key i there. stage-Runs key g i serving w (λ e. refl) (h.session_runs key i there);
  stream_owned = λ key s there. elim (Bool-cases (str_eq (w.ingests g).key key)) [
    | inl e ↦ (g, known, ground (arith, eq_iff (w.ingests g).key key, e), ground arith)
    | inr e ↦
        let law =
          lookup-insert (w.ingests g).key key (new_stream (w.ingests g).key) w.manager.streams in
        stage-Owned key g serving w (λ named. refl)
          (h.stream_owned key s (ground (arith, law, e, there)))
  ];
  unborn = stage_unborn g serving w h known;
}

unregister-streams :
    (key other : String) (m : StreamManager) (pool : Pool) (s : LiveStream)
    → lookup other (unregister key m pool).0.streams ≡ some s
    → (key ≢ other) × (lookup other m.streams ≡ some s)
unfolding unregister
unregister-streams key other m pool s there =
    let law = lookup-delete key other m.streams in
    elim (Option-cases (lookup key m.streams)) [
      | inl e ↦ (λ same. ground (arith, e, there, same), ground (arith, e, there))
      | inr (s0, e) ↦ (
        λ same. ground (arith, e, there, law, (eq_iff key other).1 same),
        ground (arith, e, there, law),
      )
    ]

unregister_stream-IsWorld : (g : ℕ) (w : World) → IsWorld w → IsWorld (unregister_stream g w)
unregister_stream-IsWorld g w h = elim (unregister_stream-cases g w) [
  | inl e ↦ subst IsWorld (sym e) h
  | inr (at, e) ↦ subst IsWorld (sym e) (record {
    session_runs = λ key i there.
        let runs = h.session_runs key i there in
        stage-Runs key g i ended w
          (λ same. absurd (ground (arith, ap (λ n. (w.ingests n).stage) same, at, runs.3))) runs;
    stream_owned = λ key s there.
        let (differs, before) = unregister-streams (w.ingests g).key key w.manager w.pool s there in
        stage-Owned key g ended w (λ named. absurd (differs named)) (h.stream_owned key s before);
    unborn = stage_unborn g ended w h (is_born g unregistering w h at (λ e. cc));
  })
]

give_up-IsWorld : (g : ℕ) (w : World) → IsWorld w → IsWorld (give_up g w)
give_up-IsWorld g w h = elim (give_up-cases g w) [
  | inl e ↦ subst IsWorld (sym e) h
  | inr (at, e) ↦
      subst IsWorld (sym e) (returned-IsWorld g w (is_born g dialing w h at (λ e. cc)) h)
]

leave-IsWorld : (g : ℕ) (w : World) → IsWorld w → IsWorld (leave g w)
leave-IsWorld g w h = elim (leave-cases g w) [
  | inl e ↦ subst IsWorld (sym e) h
  | inr (at, e) ↦
      subst IsWorld (sym e) (returned-IsWorld g w (is_born g serving w h at (λ e. cc)) h)
]

try_register-IsWorld :
    (node_id : String) (g : ℕ) (w : World) → IsWorld w → IsWorld (try_register node_id g w)
try_register-IsWorld node_id g w h = elim (try_register-cases node_id g w) [
  | inl e ↦ subst IsWorld (sym e) h
  | inr (inl (at, e)) ↦
      subst IsWorld (sym e) (returned-IsWorld g w (is_born g dialing w h at (λ e. cc)) h)
  | inr (inr (at, e)) ↦
      subst IsWorld (sym e) (registered-IsWorld g w (is_born g dialing w h at (λ e. cc)) h)
]

start-IsWorld : (key : String) (w : World) → IsWorld w → IsWorld (start key w)
unfolding start
start-IsWorld key w h = elim (Option-cases (lookup key w.sessions)) [
  | inr (g, e) ↦ rw (e, start) h
  | inl e ↦
      rw (e, start)
        (record {
          session_runs = λ k g there.
              let law = lookup-insert key k w.next w.sessions in
              elim (Bool-cases (str_eq key k)) [
                | inl same ↦
                    let it : g ≡ w.next = ground (arith, law, same, there) in
                    (
                      ground (arith, it),
                      ground (arith, it, eq_iff key k, same),
                      ground (arith, it),
                      ground (arith, it),
                    )
                | inr differs ↦
                    let runs = h.session_runs k g (ground (arith, law, differs, there)) in
                    (
                      omega (arith, runs.0),
                      ground (arith, runs),
                      ground (arith, runs),
                      ground (arith, runs),
                    )
              ];
          stream_owned = λ k s there.
              let (g, known, owns, holds) = h.stream_owned k s there in
              (g, omega (arith, known), ground (arith, known, owns), ground (arith, known, holds));
          unborn = λ g late. ground (arith, late, h.unborn g);
        })
]

stop-IsWorld : (key : String) (w : World) → IsWorld w → IsWorld (stop key w)
unfolding stop
stop-IsWorld key w h = elim (Option-cases (lookup key w.sessions)) [
  | inl e ↦ rw (e, stop) h
  | inr (g, e) ↦
      let named = (h.session_runs key g e).1 in
      rw (e, stop)
        (record {
          session_runs = λ k i there.
              let law = lookup-delete key k w.sessions in
              let runs = h.session_runs k i (ground (arith, law, there)) in
              let differs : i ≢ g = λ same. ground (
                arith,
                law,
                there,
                eq_iff key k,
                ap (λ n. (w.ingests n).key) same,
                named,
                runs.1,
              ) in
              (
                runs.0,
                ground (arith, differs, runs),
                ground (arith, differs, runs),
                ground (arith, differs, runs),
              );
          stream_owned = λ k s there.
              let (i, known, owns, holds) = h.stream_owned k s there in
              (i, known, ground (arith, owns), ground (arith, holds));
          unborn = λ i late. ground (arith, h.unborn i late);
        })
]

act-IsWorld : (node_id : String) (a : Action) (w : World) → IsWorld w → IsWorld (act node_id a w)
unfolding act
act-IsWorld node_id (starts key) w h = start-IsWorld key w h
act-IsWorld node_id (stops key) w h = stop-IsWorld key w h
act-IsWorld node_id (gives_up g) w h = give_up-IsWorld g w h
act-IsWorld node_id (registers g) w h = try_register-IsWorld node_id g w h
act-IsWorld node_id (leaves g) w h = leave-IsWorld g w h
act-IsWorld node_id (removes g) w h = remove-IsWorld g w h
act-IsWorld node_id (unregisters g) w h = unregister_stream-IsWorld g w h

idle_world-IsWorld : (pool : Pool) → IsWorld (idle_world pool)
unfolding lookup
idle_world-IsWorld pool = record {
  session_runs = λ key g there. cc;
  stream_owned = λ key s there. absurd (cc);
  unborn = λ g late. refl;
}

run-IsWorld :
    (node_id : String) (actions : List Action) (w : World)
    → IsWorld w
    → IsWorld (run node_id actions w)
unfolding run
run-IsWorld node_id [] w h = h
run-IsWorld node_id (a ∷ later) w h =
    run-IsWorld node_id later (act node_id a w) (act-IsWorld node_id a w h)

-- From the start of the process, in every order of the actions: a session stands for a goroutine that runs
-- for its key, was not cancelled and has yet to give the session up; and every stream that is registered has
-- some goroutine that will still unregister its key.
pub run-Owned :
    (node_id key : String) (pool : Pool) (actions : List Action)
    → let w = run node_id actions (idle_world pool) in
      ((g : ℕ) → lookup key w.sessions ≡ some g → Runs key g w)
      × ((s : LiveStream) → lookup key w.manager.streams ≡ some s → Owned key w)
run-Owned node_id key pool actions =
    let h = run-IsWorld node_id actions (idle_world pool) (idle_world-IsWorld pool) in
    (λ g. h.session_runs key g, λ s. h.stream_owned key s)
