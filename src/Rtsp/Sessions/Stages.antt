-- ===== src/Rtsp/Sessions/Stages.antt =====
-- Whom a session and a stream belong to, and what an action does to that.
use native.Mathlib.Decide.{dec_lt}
use cam_server.Base.{
  ◌≤◌, sym, ◌∙◌, ℕ, ◌<◌, ◌==◌, ◌≡◌, ◌≢◌, refl, Bool, true, false, String, some, lookup, insert,
  delete, arith, inl, inr, Bool-cases, ==→eq, ◌⊎◌,
}
use cam_server.Rtsp.Sessions.{
  Stage, dialing, serving, returned, unregistering, ended, World, to_stage, give_up, try_register,
  leave, remove, unregister_stream,
}
use cam_server.Stream.Fanout.{LiveStream, new_stream}
use cam_server.Stream.Manager.{register, unregister}

-- The stages before the goroutine gives its session up.
abbrev pub has_session : Stage → Bool
has_session dialing = true
has_session serving = true
has_session returned = true
has_session unregistering = false
has_session ended = false

-- The stages from `Register` to `Unregister`.
abbrev pub will_unregister : Stage → Bool
will_unregister dialing = false
will_unregister serving = true
will_unregister returned = true
will_unregister unregistering = true
will_unregister ended = false

-- The goroutine runs for this key, was not cancelled, and has yet to give its session up.
abbrev pub Runs : String → ℕ → World → Type 0
Runs key g w =
    (g < w.next)
    × ((w.ingests g).key ≡ key)
    × ((w.ingests g).cancelled ≡ false)
    × (has_session (w.ingests g).stage ≡ true)

-- Some goroutine has yet to unregister the key.
abbrev pub Owned : String → World → Type 0
Owned key w =
    (g : ℕ) × (g < w.next)
    × ((w.ingests g).key ≡ key)
    × (will_unregister (w.ingests g).stage ≡ true)

pub record IsWorld (w : World) : Type 0 where
  pub session_runs : (key : String) (g : ℕ) → lookup key w.sessions ≡ some g → Runs key g w
  pub stream_owned :
      (key : String) (s : LiveStream) → lookup key w.manager.streams ≡ some s → Owned key w
  pub unborn : (g : ℕ) → w.next ≤ g → (w.ingests g).stage ≡ ended

pub is_born :
    (g : ℕ) (stage : Stage) (w : World)
    → IsWorld w
    → (w.ingests g).stage ≡ stage
    → stage ≢ ended
    → g < w.next
is_born g stage w h at differs = elim (dec_lt g w.next) [
  | yes known ↦ known
  | no late ↦ absurd (differs (sym at ∙ h.unborn g (omega (arith, late))))
]

pub stage_unborn :
    (g : ℕ) (stage : Stage) (w : World)
    → IsWorld w
    → g < w.next
    → (i : ℕ) → w.next ≤ i
    → ((to_stage g stage w).ingests i).stage ≡ ended
stage_unborn g stage w h known i late = ground (arith, h.unborn i late)

-- A goroutine goes to another stage.
pub stage-Runs :
    (key : String) (g h : ℕ) (stage : Stage) (w : World)
    → (h ≡ g → has_session stage ≡ true)
    → Runs key h w
    → Runs key h (to_stage g stage w)
stage-Runs key g h stage w goes r = elim (Bool-cases (h == g)) [
  | inl e ↦ (r.0, ground (arith, e, r), ground (arith, e, r), rw e (goes (==→eq h g e)))
  | inr e ↦ rw e r
]

pub stage-Owned :
    (key : String) (g : ℕ) (stage : Stage) (w : World)
    → ((w.ingests g).key ≡ key → will_unregister stage ≡ true)
    → Owned key w
    → Owned key (to_stage g stage w)
stage-Owned key g stage w goes (h, known, named, holds) = elim (Bool-cases (h == g)) [
  | inl e ↦ (h, known, ground (arith, e, named), rw e (goes (ground (arith, e, named))))
  | inr e ↦ (h, known, rw e named, rw e holds)
]

pub returned-IsWorld :
    (g : ℕ) (w : World) → g < w.next → IsWorld w → IsWorld (to_stage g returned w)
returned-IsWorld g w known h = record {
  session_runs =
      λ key i there. stage-Runs key g i returned w (λ e. refl) (h.session_runs key i there);
  stream_owned =
      λ key s there. stage-Owned key g returned w (λ e. refl) (h.stream_owned key s there);
  unborn = stage_unborn g returned w h known;
}

pub give_up-cases :
    (g : ℕ) (w : World)
    → (give_up g w ≡ w) ⊎ (((w.ingests g).stage ≡ dialing) × (give_up g w ≡ to_stage g returned w))
unfolding give_up
give_up-cases g w = ground arith

pub leave-cases :
    (g : ℕ) (w : World)
    → (leave g w ≡ w) ⊎ (((w.ingests g).stage ≡ serving) × (leave g w ≡ to_stage g returned w))
unfolding leave
leave-cases g w = ground arith

pub remove-cases :
    (g : ℕ) (w : World)
    → (remove g w ≡ w)
      ⊎ (((w.ingests g).stage ≡ returned)
          × (remove g w
              ≡ to_stage g unregistering
                  (record w { sessions = delete (w.ingests g).key w.sessions })))
unfolding remove
remove-cases g w = ground arith

pub unregister_stream-cases :
    (g : ℕ) (w : World)
    → (unregister_stream g w ≡ w)
      ⊎ (((w.ingests g).stage ≡ unregistering)
          × (unregister_stream g w
              ≡ to_stage g ended (record w {
                manager = (unregister (w.ingests g).key w.manager w.pool).0;
                pool = (unregister (w.ingests g).key w.manager w.pool).1;
              })))
unfolding unregister_stream
unregister_stream-cases g w = ground arith

pub try_register-cases :
    (node_id : String) (g : ℕ) (w : World)
    → (try_register node_id g w ≡ w)
      ⊎ (((w.ingests g).stage ≡ dialing) × (try_register node_id g w ≡ to_stage g returned w))
      ⊎ (((w.ingests g).stage ≡ dialing)
          × (try_register node_id g w
              ≡ to_stage g serving (record w {
                manager = record {
                  streams =
                      insert (w.ingests g).key (new_stream (w.ingests g).key) w.manager.streams;
                };
              })))
unfolding try_register register
try_register-cases node_id g w = ground arith
