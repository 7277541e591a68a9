-- ===== src/Api/Session/Ready.antt =====
-- When a stream counts as ready for a session.
use mathlib.Core.Path.{subst}
use cam_server.Base.{
  ℕ, ◌≡◌, ◌≢◌, ◌⊎◌, ◌↔◌, inl, inr, pos, String, Option, none, some, List, [], ◌∷◌, eq_iff, Result,
  ok, err, arith, true, refl, Option-cases,
}
use cam_server.Api.Session.{
  MtxPath, ReadyError, Server, any_ready, check_paths, ensure_stream_ready,
}
use cam_server.Ha.Lease.{Codec}
use cam_server.Ha.Retry.{retry_loop, retry}
use cam_server.Stream.Manager.{get_stream}

retry_three :
    {E : Type 0} (fn ctx_err : ℕ → Option E)
    → ((n : ℕ) → ctx_err n ≡ none)
    → ((retry fn ctx_err (pos 3)).0 ≡ none) ↔ ((fn 1 ≡ none) ⊎ (fn 2 ≡ none) ⊎ (fn 3 ≡ none))
unfolding retry retry_loop
retry_three fn ctx_err never = (
  λ h. ground (arith, h, never 1, never 2, never 3),
  λ h. ground (arith, h, never 1, never 2, never 3),
)

-- The list has a path of this name that is ready.
abbrev pub HasReady : String → List MtxPath → Type 0
HasReady key [] = ⊥
HasReady key (p ∷ ps) = ((p.name ≡ key) × (p.ready ≡ true)) ⊎ HasReady key ps

any_ready_iff : (key : String) (ps : List MtxPath) → (any_ready key ps ≡ true) ↔ HasReady key ps
unfolding any_ready
any_ready_iff key [] = (λ h. ground (arith, h), λ none_there. absurd none_there)
any_ready_iff key (p ∷ ps) =
    let (to, from) = any_ready_iff key ps in
    let same = eq_iff p.name key in
    (λ h. ground (arith, h, to, same), λ h. ground (arith, h, from, same))

-- A listing that succeeds and shows a path of this name that is ready.
abbrev pub Shows : String → Result String (List MtxPath) → Type 0
Shows key listing = (paths : List MtxPath) × (listing ≡ ok paths) × HasReady key paths

check_paths_iff :
    (key : String) (listing : Result String (List MtxPath))
    → (check_paths key listing ≡ none) ↔ Shows key listing
unfolding check_paths
check_paths_iff key (err why) =
    (λ h. absurd (ground (arith, h)), λ (paths, e, has). absurd (ground (arith, e)))
check_paths_iff key (ok ps) =
    let (to, from) = any_ready_iff key ps in
    (
      λ h. (ps, refl, to (ground (arith, h))),
      λ (paths, e, has).
          let same : paths ≡ ps = ground (arith, e) in
          let is_ready : any_ready key ps ≡ true = from (subst (HasReady key) same has) in
          ground (arith, is_ready),
    )

-- One of the three listings shows the path ready.
abbrev pub Listed : String → (ℕ → Result String (List MtxPath)) → Type 0
Listed key list_paths =
    Shows key (list_paths 1) ⊎ Shows key (list_paths 2) ⊎ Shows key (list_paths 3)

retry_paths :
    (key : String) (list_paths : ℕ → Result String (List MtxPath)) (ctx_err : ℕ → Option ReadyError)
    → ((n : ℕ) → ctx_err n ≡ none)
    → ((retry (λ n. check_paths key (list_paths n)) ctx_err (pos 3)).0 ≡ none)
      ↔ Listed key list_paths
retry_paths key list_paths ctx_err never =
    let (to, from) = retry_three (λ n. check_paths key (list_paths n)) ctx_err never in
    let a = check_paths_iff key (list_paths 1) in
    let b = check_paths_iff key (list_paths 2) in
    let c = check_paths_iff key (list_paths 3) in
    (
      λ h. elim (to h) [
        | inl x ↦ inl (a.0 x)
        | inr y ↦ elim y [ inl x ↦ inr (inl (b.0 x)) | inr x ↦ inr (inr (c.0 x)) ]
      ],
      λ h. from (elim h [
        | inl x ↦ inl (a.1 x)
        | inr y ↦ elim y [ inl x ↦ inr (inl (b.1 x)) | inr x ↦ inr (inr (c.1 x)) ]
      ]),
    )

module _ (codec : Codec) (trim_slashes lower : String → String) where
  open codec use {trim}

  -- As long as the context of the request is not done, a stream is ready exactly if its trimmed key is not empty
  -- and the manager has it, or there is a client of MediaMTX and one of three listings succeeds and shows
  -- a path of that name that is ready.
  pub ensure_stream_ready_iff :
      (stream_key : String) (s : Server)
      → ((n : ℕ) → s.ctx_err n ≡ none)
      → let key = trim_slashes (trim stream_key) in
        (ensure_stream_ready codec trim_slashes lower stream_key s ≡ none) ↔ (
          (key ≢ "")
          × ((get_stream key s.manager ≢ none)
              ⊎ ((list_paths : ℕ → Result String (List MtxPath)) × (s.mtx ≡ some list_paths)
                  × Listed key list_paths)))
  unfolding ensure_stream_ready
  ensure_stream_ready_iff stream_key s never =
      let key = trim_slashes (trim stream_key) in
      let empty = eq_iff key "" in
      elim (Option-cases (get_stream key s.manager)) [
        | inr (live, e) ↦ (
          λ h. (ground (arith, h, empty), inl (ground (arith, e))),
          λ (set, found). ground (arith, set, empty, e),
        )
        | inl e ↦ elim (Option-cases s.mtx) [
          | inl f ↦ (
            λ h. absurd (ground (arith, h, e, f)),
            λ (set, found). elim found [
              | inl there ↦ absurd (there e)
              | inr (list_paths, g, listed) ↦ absurd (ground (arith, f, g))
            ],
          )
          | inr (list_paths, f) ↦
              let (to, from) = retry_paths key list_paths s.ctx_err never in
              (
                λ h. (
                  ground (arith, h, empty),
                  inr (list_paths, f, to (ground (arith, h, e, f, empty))),
                ),
                λ (set, found). elim found [
                  | inl there ↦ absurd (there e)
                  | inr (other, g, listed) ↦
                      let same : other ≡ list_paths = ground (arith, f, g) in
                      ground (arith, set, empty, e, f, from (subst (Listed key) same listed))
                ],
              )
        ]
      ]
