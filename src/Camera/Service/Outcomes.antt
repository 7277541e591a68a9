-- ===== src/Camera/Service/Outcomes.antt =====
-- What a call of `Create` that succeeds has done, and which requests it can never serve.
use Prim.Native.String.{◌++◌ as joined}
use text.Mathlib.TextLemmas.{append-ne-nil_of_right_ne-nil}
use mathlib.Core.List.{append-eq-nil_iff}
use cam_server.Base.{
  ap, ℕ, ◌≡◌, ◌≢◌, ◌↔◌, refl, sym, ◌∙◌, false, Option, none, some, String, List, [], ◌∷◌, arith,
  inl, inr, str_eq, eq_iff, Option-cases, List-cases, length, ◌+◌, Bool-cases, Result-cases, lookup,
  lookup-insert, lookup-insert_self, insert, ok, err, pos,
}
use cam_server.Camera.Fields.{
  Problem, Uuid, valid_scheme, validate_credentials, validate_credentials_write,
}
use cam_server.Camera.Fields.Credentials.{validate_credentials_iff}
use cam_server.Camera.Model.{Cam, CamWrite, CamProfile, CamCredentialsWrite}
use cam_server.Camera.Service.{
  CamService, CamError, cam_not_found, Ids, accept, new_id, site_id_of, make_profiles,
  apply_defaults, make_cam, new_cam, save_new, create_checked, create_cam, stored_credentials,
  find_cam,
}
use cam_server.Camera.Store.{save, get_cam}
use cam_server.Camera.Validation.{Url, validate_cam, validate_cam_write, check_credentials}

accept_ok : (ps : List Problem) (u : Unit) → accept ps ≡ ok u → ps ≡ []
accept_ok [] u h = refl
accept_ok (p ∷ ps) u h = cc

-- A stored camera is the one that was made, in a place that was free.
save_new_ok :
    (cam : Cam) (creds : Option CamCredentialsWrite) (s s' : CamService)
    → save_new cam creds s ≡ ok s'
    → (lookup cam.cam_id s.store.cameras ≡ none)
      × (s'.store.cameras ≡ insert cam.cam_id cam s.store.cameras)
      × (s'.store.creds
          ≡ elim creds [ none ↦ s.store.creds | some w ↦ insert cam.cam_id w s.store.creds ])
unfolding save_new save
save_new_ok cam creds s s' h = elim (Option-cases (lookup cam.cam_id s.store.cameras)) [
  | inl e ↦ (e, ground arith, ground arith)
  | inr (c, e) ↦ absurd (ground arith)
]

-- The four results that `Create` puts together, and the camera that it makes of them.
abbrev pub Made : ℕ → Ids → CamWrite → CamService → Cam → Type 0
Made now ids body s cam =
    (cam_id : String) × (site : String × ℕ) × (profiles : List CamProfile) × (probe_id : String)
    × (site_id_of ids body.site.site_id ≡ ok site)
    × (make_profiles ids site.1 body.profiles ≡ ok profiles)
    × (cam ≡ new_cam now cam_id site.0 profiles probe_id body s)

make_cam_ok :
    (now : ℕ) (ids : Ids) (body : CamWrite) (s : CamService) (cam : Cam)
    → make_cam now ids body s ≡ ok cam
    → Made now ids body s cam
unfolding make_cam
make_cam_ok now ids body s cam h = elim (Result-cases (new_id ids 0)) [
  | inl (e, a) ↦ absurd (ground arith)
  | inr (cam_id, a) ↦ elim (Result-cases (site_id_of ids body.site.site_id)) [
    | inl (e, b) ↦ absurd (ground arith)
    | inr (site, b) ↦ elim (Result-cases (make_profiles ids site.1 body.profiles)) [
      | inl (e, c) ↦ absurd (ground arith)
      | inr (profiles, c) ↦ elim (Result-cases (new_id ids (site.1 + length profiles))) [
        | inl (e, d) ↦ absurd (ground arith)
        | inr (probe_id, d) ↦ (cam_id, site, profiles, probe_id, b, c, ground arith)
      ]
    ]
  ]
]

suffix_not_empty : (t : String) → t ≡ ":creds" → t ≢ ""
suffix_not_empty t suffix empty = ground (arith, eq_iff ":creds" "", suffix, empty)

pub ref_not_empty : (cam_id : String) → str_eq (joined cam_id ":creds") "" ≡ false
ref_not_empty cam_id = elim (Bool-cases (str_eq (joined cam_id ":creds") "")) [
  | inl e ↦
      absurd
        (append-ne-nil_of_right_ne-nil cam_id (suffix_not_empty ":creds" refl) ((eq_iff _ "").0 e))
  | inr e ↦ e
]

-- With the scheme "none" there is no reference.
none-ref :
    (scheme username ref : String)
    → scheme ≡ "none"
    → validate_credentials
        (record { scheme = scheme; username = username; password_ref = ref; rotated_at = none })
      ≡ []
    → ref ≡ ""
none-ref scheme username ref is_none good =
    elim ((validate_credentials_iff
        (record { scheme = scheme; username = username; password_ref = ref; rotated_at = none })).0
      good) [
        | inl (a, b, c) ↦ c
        | inr (a, b, c) ↦
            absurd
              (ground (arith, eq_iff scheme "none", eq_iff "none" "basic", eq_iff "none" "digest"))
      ]

-- What is stored for the scheme "none" is not accepted: the reference is never empty.
none-refused :
    (parse : String → Option Uuid) (parse_url : String → Option Url) (cam_id : String)
    (w : CamCredentialsWrite)
    → w.scheme ≡ "none"
    → check_credentials parse parse_url (stored_credentials cam_id (some w)) ≢ []
none-refused parse parse_url cam_id w scheme good =
    let empty = none-ref w.scheme w.username (joined cam_id ":creds") scheme good in
    ground (arith, ref_not_empty cam_id, (eq_iff (joined cam_id ":creds") "").1 empty)

-- The check of a request accepts credentials of the scheme "none" that have nothing else.
none_accepted :
    (w : CamCredentialsWrite)
    → w.scheme ≡ "none"
    → (validate_credentials_write w ≡ []) ↔ ((w.username ≡ "") × (w.password ≡ ""))
unfolding validate_credentials_write valid_scheme
none_accepted w scheme =
    let user = eq_iff w.username "" in
    let password = eq_iff w.password "" in
    let is_none = eq_iff w.scheme "none" in
    (
      λ h. (
        ground (arith, h, scheme, user, is_none),
        ground (arith, h, scheme, user, password, is_none),
      ),
      λ (no_user, no_password).
          ground (arith, no_user, no_password, scheme, user, password, is_none),
    )

module _ (parse : String → Option Uuid) (parse_url : String → Option Url) where
  create_checked_ok :
      (now : ℕ) (ids : Ids) (body : CamWrite) (s s' : CamService) (cam : Cam)
      → create_checked parse parse_url now ids body s ≡ ok (s', cam)
      → (validate_cam_write parse parse_url body ≡ [])
        × (make_cam now ids body s ≡ ok cam)
        × (validate_cam parse parse_url cam ≡ [])
        × (save_new cam body.credentials s ≡ ok s')
  unfolding create_checked
  create_checked_ok now ids body s s' cam h =
      elim (List-cases (validate_cam_write parse parse_url body)) [
        | inr (p, ps, a) ↦ absurd (ground arith)
        | inl a ↦ elim (Result-cases (make_cam now ids body s)) [
          | inl (e, b) ↦ absurd (ground arith)
          | inr (made, b) ↦ elim (List-cases (validate_cam parse parse_url made)) [
            | inr (p, ps, c) ↦ absurd (ground arith)
            | inl c ↦ elim (Result-cases (save_new made body.credentials s)) [
              | inl (e, d) ↦ absurd (ground arith)
              | inr (s2, d) ↦ (a, ground arith, ground arith, ground arith)
            ]
          ]
        ]
      ]

  validate_cam-credentials :
      (c : Cam)
      → validate_cam parse parse_url c ≡ []
      → check_credentials parse parse_url c.credentials ≡ []
  unfolding validate_cam
  validate_cam-credentials c good =
      let (h1, version) = append-eq-nil_iff.0 good in
      let (h2, times) = append-eq-nil_iff.0 h1 in
      let (h3, credentials) = append-eq-nil_iff.0 h2 in credentials

  -- No request whose credentials have the scheme "none" can create a camera: the call returns an error,
  -- though the check of such credentials in a request accepts them if, and only if, the user name and the
  -- password are empty.
  pub create_cam-none-scheme :
      (now : ℕ) (ids : Ids) (request : CamWrite) (s : CamService) (w : CamCredentialsWrite)
      → request.credentials ≡ some w
      → w.scheme ≡ "none"
      → ((validate_credentials_write w ≡ []) ↔ ((w.username ≡ "") × (w.password ≡ "")))
        × ((e : CamError) × (create_cam parse parse_url now ids request s ≡ err e))
  unfolding create_cam apply_defaults
  create_cam-none-scheme now ids request s w given scheme = (
    none_accepted w scheme,
    elim (Result-cases (create_cam parse parse_url now ids request s)) [
      | inl (e, failed) ↦ (e, failed)
      | inr ((s', cam), done) ↦
          let (a, made, valid, c) =
            create_checked_ok now ids (apply_defaults request) s s' cam done in
          let (cam_id, site, profiles, probe_id, b, d, it) =
            make_cam_ok now ids (apply_defaults request) s cam made in
          let stored : cam.credentials ≡ stored_credentials cam_id (some w) =
            ground (arith, it, given) in
          absurd (
            none-refused parse parse_url cam_id w scheme (
              ap (check_credentials parse parse_url) (sym stored)
              ∙ validate_cam-credentials cam valid))
    ],
  )

  -- A camera that `Create` returns passes `Cam.Validate`, has version 0 and the time of the call as both
  -- of its times, belongs to the tenant of the service and stands where none stood; it is what `Get` then
  -- finds under its identifier, and under every other one `Get` finds what it found before. The
  -- credentials of the request are kept apart, the camera has their scheme and user name.
  pub find_cam-create_cam :
      (now : ℕ) (ids : Ids) (request : CamWrite) (s s' : CamService) (cam : Cam)
      → create_cam parse parse_url now ids request s ≡ ok (s', cam)
      → (validate_cam parse parse_url cam ≡ [])
        × (cam.version ≡ pos 0)
        × (cam.created_at ≡ now)
        × (cam.updated_at ≡ now)
        × (cam.tenant_id ≡ s.tenant_id)
        × (find_cam cam.cam_id s ≡ err cam_not_found)
        × (find_cam cam.cam_id s' ≡ ok cam)
        × ((other : String) → other ≢ cam.cam_id → find_cam other s' ≡ find_cam other s)
        × (cam.credentials ≡ stored_credentials cam.cam_id request.credentials)
        × ((w : CamCredentialsWrite)
            → request.credentials ≡ some w
            → lookup cam.cam_id s'.store.creds ≡ some w)
  unfolding create_cam apply_defaults find_cam get_cam
  find_cam-create_cam now ids request s s' cam done =
      let (a, made, valid, saved) =
        create_checked_ok now ids (apply_defaults request) s s' cam done in
      let (cam_id, site, profiles, probe_id, b, d, it) =
        make_cam_ok now ids (apply_defaults request) s cam made in
      let (free, store, creds) = save_new_ok cam request.credentials s s' saved in
      (
        valid,
        ground (arith, it),
        ground (arith, it),
        ground (arith, it),
        ground (arith, it),
        ground (arith, free),
        ground (arith, store, lookup-insert_self cam.cam_id cam s.store.cameras),
        λ other apart. ground (
          arith,
          store,
          apart,
          eq_iff cam.cam_id other,
          lookup-insert cam.cam_id other cam s.store.cameras,
        ),
        ground (arith, it),
        λ w given. rw creds (rw given (lookup-insert_self cam.cam_id w s.store.creds)),
      )
