-- ===== src/Camera/Fields/Profiles.antt =====
-- Which lists of profiles `validateProfiles` accepts.
use mathlib.Core.List.{append-eq-nil_iff}
use cam_server.Base.{
  ℕ, ◌+◌, ◌≡◌, ◌≢◌, ◌↔◌, refl, false, Option, String, List, [], ◌∷◌, ◌++◌, All, map, elem, eq_iff,
  arith, if◌then◌else◌,
}
use cam_server.Camera.Fields.{
  more, check_name, Uuid, validate_profile, validate_loop, validate_profiles,
}
use cam_server.Camera.Model.{CamProfile}

abbrev pub names : List CamProfile → List String
names ps = map (λ p. p.name) ps

-- No two profiles have one name.
abbrev pub Unique : List CamProfile → Type 0
Unique [] = Unit
Unique (p ∷ ps) = (elem p.name (names ps) ≡ false) × Unique ps

abbrev pub defaults : List CamProfile → ℕ
defaults [] = 0
defaults (p ∷ ps) = if p.is_default then 1 + defaults ps else defaults ps

abbrev Unseen : List String → List CamProfile → Type 0
Unseen seen ps = All (λ (p : CamProfile). elem p.name seen ≡ false) ps

Unseen-cons :
    (name : String) (seen : List String) (ps : List CamProfile)
    → Unseen (name ∷ seen) ps ↔ ((elem name (names ps) ≡ false) × Unseen seen ps)
Unseen-cons name seen [] = (λ h. (refl, tt), λ h. tt)
Unseen-cons name seen (p ∷ ps) =
    let (to, from) = Unseen-cons name seen ps in
    (
      λ (h, hs).
          let (a, b) = to hs in
          (ground (arith, eq_iff name p.name, eq_iff p.name name), (ground arith, b)),
      λ (a, (b, c)).
          (ground (arith, eq_iff name p.name, eq_iff p.name name), from (ground arith, c)),
    )

module _ (parse : String → Option Uuid) where
  abbrev Valid : List CamProfile → Type 0
  Valid ps = All (λ p. validate_profile parse p ≡ []) ps

  loop-cons :
      (seen : List String) (n : ℕ) (p : CamProfile) (ps : List CamProfile)
      → validate_loop parse seen n (p ∷ ps)
        ≡ validate_profile parse p
          ++ check_name p.name seen
          ++ validate_loop parse (p.name ∷ seen) (more p.is_default n) ps
  unfolding validate_loop
  loop-cons seen n p ps = refl

  loop_sound :
      (seen : List String) (n : ℕ) (ps : List CamProfile)
      → validate_loop parse seen n ps ≡ []
      → Valid ps × Unseen seen ps × Unique ps × (n + defaults ps ≡ 1)
  unfolding validate_loop
  loop_sound seen n [] h = (tt, tt, tt, ground arith)
  loop_sound seen n (p ∷ ps) h =
      let (first, more_good) = append-eq-nil_iff.0 (rw (loop-cons seen n p ps) at h) in
      let (good, new_name) = append-eq-nil_iff.0 first in
      let (all, unseen, unique, one) =
        loop_sound (p.name ∷ seen) (more p.is_default n) ps more_good in
      let (fresh, others) = (Unseen-cons p.name seen ps).0 unseen in
      ((good, all), (ground arith, others), (fresh, unique), ground arith)

  loop_complete :
      (seen : List String) (n : ℕ) (ps : List CamProfile)
      → Valid ps
      → Unseen seen ps
      → Unique ps
      → n + defaults ps ≡ 1
      → validate_loop parse seen n ps ≡ []
  unfolding validate_loop
  loop_complete seen n [] valid unseen unique one = ground arith
  loop_complete seen n (p ∷ ps) (good, all) (new_name, others) (fresh, unique) one =
      let rest =
        loop_complete (p.name ∷ seen) (more p.is_default n) ps all
          ((Unseen-cons p.name seen ps).1 (fresh, others)) unique (ground arith) in
      rw (loop-cons seen n p ps, good, rest) (ground arith)

  -- `validateProfiles` finds no problem exactly if there is a profile, each profile is valid by
  -- itself, no two have one name, and exactly one is the default.
  pub validate_profiles_iff :
      (ps : List CamProfile)
      → (validate_profiles parse ps ≡ [])
        ↔ ((ps ≢ []) × All (λ p. validate_profile parse p ≡ []) ps × Unique ps × (defaults ps ≡ 1))
  unfolding validate_profiles
  validate_profiles_iff [] = (λ h. absurd cc, λ w. absurd (w.0 refl))
  validate_profiles_iff (p ∷ ps) = (
    λ h.
        let (valid, u, unique, one) = loop_sound [] 0 (p ∷ ps) h in
        (λ e. cc, valid, unique, omega arith),
    λ (some_profile, valid, unique, one).
        loop_complete [] 0 (p ∷ ps) valid (nothing_seen (p ∷ ps)) unique (omega arith),
  )
    where
      nothing_seen : (qs : List CamProfile) → Unseen [] qs
      nothing_seen [] = tt
      nothing_seen (q ∷ qs) = (refl, nothing_seen qs)
