-- ===== src/Ha/Health/Degraded.antt =====
-- When the monitor reports a degraded control plane.
use cam_server.Base.{
  ℕ, ◌≡◌, ◌⊎◌, ◌↔◌, inl, inr, refl, true, false, String, none, some, List, [], ◌∷◌, map, arith,
  Option-cases, Bool-cases, eq_iff,
}
use cam_server.Ha.Health.{
  Dependency, mode_degraded_control_plane, check_dependency, any_down, snapshot,
}

-- A dependency that has no check, or whose check returns an error.
abbrev pub IsDown : Dependency → Type 0
IsDown d = (d.check ≡ none) ⊎ ((ms : ℕ) × (why : String) × (d.check ≡ some (ms, some why)))

abbrev pub AnyRequiredDown : List Dependency → Type 0
AnyRequiredDown [] = ⊥
AnyRequiredDown (d ∷ deps) = ((d.required ≡ true) × IsDown d) ⊎ AnyRequiredDown deps

check_dependency-up : (d : Dependency) → ((check_dependency d).up ≡ false) ↔ IsDown d
unfolding check_dependency
check_dependency-up d = elim (Option-cases d.check) [
  | inl e ↦ (λ h. inl e, λ h. rw (e, check_dependency) refl)
  | inr ((ms, none), e) ↦ (
    λ h. ground (arith, e, h),
    λ h. elim h [ inl f ↦ ground (arith, e, f) | inr (m, why, f) ↦ ground (arith, e, f) ],
  )
  | inr ((ms, some why), e) ↦ (λ h. inr (ms, why, e), λ h. rw (e, check_dependency) refl)
]

check_dependency-required : (d : Dependency) → (check_dependency d).required ≡ d.required
unfolding check_dependency
check_dependency-required d = ground arith

any_down_iff :
    (deps : List Dependency) → (any_down (map check_dependency deps) ≡ true) ↔ AnyRequiredDown deps
unfolding any_down
any_down_iff [] = (λ h. ground (arith, h), λ h. absurd h)
any_down_iff (d ∷ deps) =
    let (to, from) = any_down_iff deps in
    let (down, is_down) = check_dependency-up d in
    let named = check_dependency-required d in
    (
      λ h. elim (Bool-cases (any_down (map check_dependency deps))) [
        | inl e ↦ inr (to e)
        | inr e ↦ inl (ground (arith, h, e, named), down (ground (arith, h, e, named)))
      ],
      λ h. elim h [
        | inl (required, d_down) ↦ ground (arith, named, required, is_down d_down)
        | inr later ↦ ground (arith, from later)
      ],
    )

-- The monitor reports "degraded", and the mode of a degraded control plane, exactly if some required
-- dependency has no check or one that returns an error; otherwise it reports "healthy" and the normal mode. It
-- reports on every dependency, in order.
pub snapshot_iff :
    (now : ℕ) (deps : List Dependency)
    → (((snapshot now deps).mode ≡ mode_degraded_control_plane) ↔ AnyRequiredDown deps)
      × (((snapshot now deps).status ≡ "degraded") ↔ AnyRequiredDown deps)
      × (((snapshot now deps).status ≡ "healthy") ⊎ ((snapshot now deps).status ≡ "degraded"))
      × ((snapshot now deps).dependencies ≡ map check_dependency deps)
unfolding snapshot
snapshot_iff now [] = (
  (λ h. cc, λ h. absurd h),
  (λ h. ground (arith, h, eq_iff "healthy" "degraded"), λ h. absurd h),
  inl refl,
  refl,
)
snapshot_iff now (d ∷ deps) =
    let (to, from) = any_down_iff (d ∷ deps) in
    elim (Bool-cases (any_down (map check_dependency (d ∷ deps)))) [
      | inl e ↦ (
        (λ h. to e, λ h. ground (arith, e)),
        (λ h. to e, λ h. ground (arith, e)),
        inr (ground (arith, e)),
        ground (arith, e),
      )
      | inr e ↦ (
        (λ h. absurd (ground (arith, e, h)), λ h. absurd (ground (arith, e, from h))),
        (
          λ h. absurd (ground (arith, e, h, eq_iff "healthy" "degraded")),
          λ h. absurd (ground (arith, e, from h)),
        ),
        inl (ground (arith, e)),
        ground (arith, e),
      )
    ]
