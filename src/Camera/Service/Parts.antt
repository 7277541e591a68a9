-- ===== src/Camera/Service/Parts.antt =====
-- What `Create` fills in passes the checks of a camera.
use mathlib.Core.List.{append-eq-nil_iff}
use Prim.Native.String.{◌++◌ as joined}
use cam_server.Base.{
  ℕ, suc, ◌≡◌, ◌≢◌, refl, false, Option, none, some, String, List, [], ◌∷◌, arith, inl, inr, str_eq,
  eq_iff, Bool-cases, ok, if◌then◌else◌,
}
use cam_server.Camera.Fields.{
  Uuid, validate_uuid_v7, validate_profile, validate_loop, validate_write_loop, validate_profiles,
  validate_write_profiles, validate_profile_write, validate_credentials, validate_credentials_write,
  valid_scheme, validate_trimmed_string, more, when, required,
}
use cam_server.Camera.Model.{CamSite, CamProfile, CamProfileWrite, CamCredentialsWrite}
use cam_server.Camera.Service.{
  site_id_of, profile_of, make_profiles, stored_credentials, fresh_health,
}
use cam_server.Camera.Service.Outcomes.{ref_not_empty}
use cam_server.Camera.Validation.{
  Url, validate_site, validate_labels, validate_times, validate_health, validate_probe,
  validate_last_error, valid_status, check_credentials, check_credentials_write,
}

-- The profiles that are made when every identifier is given out.
unfoldable pub made : (ℕ → String) → ℕ → List CamProfileWrite → List CamProfile
made name n [] = []
made name n (pw ∷ pws) = profile_of (name n) pw ∷ made name (suc n) pws

pub make_profiles-made :
    (name : ℕ → String) (n : ℕ) (pws : List CamProfileWrite)
    → make_profiles (λ k. ok (name k)) n pws ≡ ok (made name n pws)
unfolding make_profiles made
make_profiles-made name n [] = refl
make_profiles-made name n (pw ∷ pws) = rw (make_profiles-made name (suc n) pws) refl

-- Stored credentials pass if those of the request do and their scheme is not "none".
pub stored_valid :
    (cam_id : String) (w : CamCredentialsWrite)
    → w.scheme ≢ "none"
    → validate_credentials_write w ≡ []
    → validate_credentials (record {
      scheme = w.scheme;
      username = w.username;
      password_ref = joined cam_id ":creds";
      rotated_at = none;
    })
      ≡ []
unfolding validate_credentials validate_credentials_write
stored_valid cam_id w apart good = elim (Bool-cases (valid_scheme w.scheme)) [
  | inl e ↦
      let plain : str_eq w.scheme "none" ≡ false = ground (arith, eq_iff w.scheme "none") in
      let front : validate_trimmed_string "credentials.username" w.username 1 128 ≡ [] =
        ((append-eq-nil_iff {q = when (str_eq w.password "") (required "credentials.password")}).0
          (ground (arith, e, plain))).0 in
      rw (e, plain, ref_not_empty cam_id, front) refl
  | inr e ↦ absurd (ground (arith, e))
]

-- A library for identifiers that knows the ones it has given out.
abbrev pub Canonical : (String → Option Uuid) → String → Type 0
Canonical parse id = parse id ≡ some (record { version = 7; text = id })

module _ (parse : String → Option Uuid) (parse_url : String → Option Url) where
  pub uuid_valid : (field id : String) → Canonical parse id → validate_uuid_v7 parse field id ≡ []
  unfolding validate_uuid_v7
  uuid_valid field id known = ground (arith, known, eq_iff id id)

  pub loop_made :
      (name : ℕ → String) (n : ℕ) (seen : List String) (d : ℕ) (pws : List CamProfileWrite)
      → ((k : ℕ) → Canonical parse (name k))
      → validate_loop parse seen d (made name n pws) ≡ validate_write_loop seen d pws
  unfolding validate_loop validate_write_loop made validate_profile validate_profile_write
  loop_made name n seen d [] known = refl
  loop_made name n seen d (pw ∷ pws) known =
      rw
        (
          uuid_valid "profile.profile_id" (name n) (known n),
          loop_made name (suc n) (pw.name ∷ seen) (more pw.is_default d) pws known,
        )
        refl

  pub profiles_made :
      (name : ℕ → String) (n : ℕ) (pws : List CamProfileWrite)
      → ((k : ℕ) → Canonical parse (name k))
      → validate_profiles parse (made name n pws) ≡ validate_write_profiles pws
  unfolding validate_profiles validate_write_profiles made
  profiles_made name n [] known = refl
  profiles_made name n (pw ∷ pws) known = loop_made name n [] 0 (pw ∷ pws) known

  pub site_valid :
      (id : String) (site : CamSite)
      → Canonical parse id
      → validate_site parse parse_url site ≡ []
      → validate_site parse parse_url
          (record { site_id = id; group_id = site.group_id; labels = site.labels })
        ≡ []
  unfolding validate_site
  site_valid id site known good =
      let (front, labels) = append-eq-nil_iff.0 good in
      let (own, group) = append-eq-nil_iff.0 front in
      let in_group : (if str_eq site.group_id ""
            then []
            else validate_uuid_v7 parse "site.group_id" site.group_id)
          ≡ [] =
        group in
      let labelled : validate_labels site.labels ≡ [] = labels in
      rw (uuid_valid "site.site_id" id known, in_group, labelled) refl

  pub chosen_site_valid :
      (name : ℕ → String) (site : CamSite)
      → ((k : ℕ) → Canonical parse (name k))
      → validate_site parse parse_url site ≡ []
      → (chosen : String × ℕ) × (site_id_of (λ k. ok (name k)) site.site_id ≡ ok chosen)
        × (validate_site parse parse_url
              (record { site_id = chosen.0; group_id = site.group_id; labels = site.labels })
            ≡ [])
  unfolding site_id_of
  chosen_site_valid name site known good = elim (Bool-cases (str_eq site.site_id "")) [
    | inl e ↦ ((name 1, 2), ground (arith, e), site_valid (name 1) site (known 1) good)
    | inr e ↦ ((site.site_id, 1), ground (arith, e), good)
  ]

  pub health_valid :
      (probe_id node_id : String)
      → Canonical parse probe_id
      → validate_trimmed_string "health.probe.owner_node_id" node_id 1 0 ≡ []
      → validate_health parse parse_url (fresh_health probe_id node_id) ≡ []
  unfolding validate_health valid_status validate_probe validate_last_error
  health_valid probe_id node_id known node =
      rw (uuid_valid "health.probe.probe_id" probe_id known, node) refl

  pub times_valid : (now : ℕ) → now ≢ 0 → validate_times parse parse_url now now ≡ []
  unfolding validate_times
  times_valid now set = ground arith

  pub credentials_valid :
      (cam_id : String) (creds : Option CamCredentialsWrite)
      → ((w : CamCredentialsWrite) → creds ≡ some w → w.scheme ≢ "none")
      → check_credentials_write parse parse_url creds ≡ []
      → check_credentials parse parse_url (stored_credentials cam_id creds) ≡ []
  credentials_valid cam_id none apart good = refl
  credentials_valid cam_id (some w) apart good = stored_valid cam_id w (apart w refl) good
