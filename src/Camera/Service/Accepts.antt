-- ===== src/Camera/Service/Accepts.antt =====
-- Which requests `Create` serves.
use mathlib.Core.List.{append-eq-nil_iff}
use cam_server.Base.{
  ℕ, ◌+◌, ◌≡◌, ◌≢◌, refl, ◌∙◌, Option, none, some, String, List, [], arith, lookup, insert, length,
  ok,
}
use cam_server.Camera.Fields.{
  Uuid, validate_uuid_v7, validate_profiles, validate_write_profiles, validate_trimmed_string,
}
use cam_server.Camera.Model.{Cam, CamWrite, CamProfile, CamCredentialsWrite}
use cam_server.Camera.Service.{
  CamService, Ids, site_id_of, apply_defaults, make_cam, new_cam, save_new, create_checked,
  create_cam,
}
use cam_server.Camera.Store.{save}
use cam_server.Camera.Validation.{
  Url, validate_cam, validate_cam_write, validate_identity, validate_capabilities,
  validate_endpoint, validate_site,
}
use cam_server.Camera.Service.Parts.{
  make_profiles-made, uuid_valid, profiles_made, chosen_site_valid, health_valid, times_valid,
  credentials_valid, made, Canonical,
}

make_cam-made :
    (now : ℕ) (name : ℕ → String) (body : CamWrite) (s : CamService) (site : String × ℕ)
    → site_id_of (λ k. ok (name k)) body.site.site_id ≡ ok site
    → make_cam now (λ k. ok (name k)) body s
      ≡ ok (
          new_cam now
            (name 0)
            site.0
            (made name site.1 body.profiles)
            (name (site.1 + length (made name site.1 body.profiles)))
            body
            s)
unfolding make_cam
make_cam-made now name body s site chosen =
    rw (chosen, make_profiles-made name site.1 body.profiles) refl

save_new_free :
    (cam : Cam) (creds : Option CamCredentialsWrite) (s : CamService)
    → lookup cam.cam_id s.store.cameras ≡ none
    → (s' : CamService) × (save_new cam creds s ≡ ok s')
unfolding save_new save
save_new_free cam creds s free = (
  record s {
    store = record {
      cameras = insert cam.cam_id cam s.store.cameras;
      creds = elim creds [ none ↦ s.store.creds | some w ↦ insert cam.cam_id w s.store.creds ];
    };
  },
  ground (arith, free),
)

module _ (parse : String → Option Uuid) (parse_url : String → Option Url) where
  site_checked :
      (body : CamWrite)
      → validate_cam_write parse parse_url body ≡ []
      → validate_site parse parse_url body.site ≡ []
  unfolding validate_cam_write
  site_checked body good =
      let (g1, credentials) = append-eq-nil_iff.0 good in
      let (g2, capabilities) = append-eq-nil_iff.0 g1 in
      let (g3, requested) = append-eq-nil_iff.0 g2 in
      let (g4, endpoint) = append-eq-nil_iff.0 g3 in
      let (identity, site) = append-eq-nil_iff.0 g4 in site

  cam_valid :
      (now : ℕ) (cam_id probe_id : String) (site : String × ℕ) (profiles : List CamProfile)
      (body : CamWrite) (s : CamService)
      → now ≢ 0
      → Canonical parse cam_id
      → Canonical parse probe_id
      → validate_uuid_v7 parse "tenant_id" s.tenant_id ≡ []
      → validate_trimmed_string "health.probe.owner_node_id" s.node_id 1 0 ≡ []
      → ((w : CamCredentialsWrite) → body.credentials ≡ some w → w.scheme ≢ "none")
      → validate_cam_write parse parse_url body ≡ []
      → validate_site parse parse_url
          (record { site_id = site.0; group_id = body.site.group_id; labels = body.site.labels })
        ≡ []
      → validate_profiles parse profiles ≡ validate_write_profiles body.profiles
      → validate_cam parse parse_url (new_cam now cam_id site.0 profiles probe_id body s) ≡ []
  unfolding validate_cam validate_cam_write
  cam_valid now cam_id probe_id site profiles body s set known known' tenant node apart good at_site
        same =
      let (g1, credentials) = append-eq-nil_iff.0 good in
      let (g2, capabilities) = append-eq-nil_iff.0 g1 in
      let (g3, requested) = append-eq-nil_iff.0 g2 in
      let (g4, endpoint) = append-eq-nil_iff.0 g3 in
      let (identity, site_before) = append-eq-nil_iff.0 g4 in
      let named : validate_identity body.identity ≡ [] = identity in
      let able : validate_capabilities body.capabilities ≡ [] = capabilities in
      let reached : validate_endpoint parse parse_url body.endpoint ≡ [] = endpoint in
      rw
        (
          uuid_valid parse parse_url "cam_id" cam_id known,
          tenant,
          named,
          at_site,
          reached,
          same ∙ requested,
          able,
          health_valid parse parse_url probe_id s.node_id known' node,
          credentials_valid parse parse_url cam_id body.credentials apart credentials,
          times_valid parse parse_url now set,
        )
        refl

  create_checked_done :
      (now : ℕ) (ids : Ids) (body : CamWrite) (s s' : CamService) (cam : Cam)
      → validate_cam_write parse parse_url body ≡ []
      → make_cam now ids body s ≡ ok cam
      → validate_cam parse parse_url cam ≡ []
      → save_new cam body.credentials s ≡ ok s'
      → create_checked parse parse_url now ids body s ≡ ok (s', cam)
  unfolding create_checked
  create_checked_done now ids body s s' cam a b c d = rw (a, b, c, d) refl

  -- A request that passes its check creates a camera whenever the identifiers that are given out parse as
  -- they are, of version 7, the service's tenant and node pass the checks made of them, the clock is not at
  -- Go's zero time, the credentials, where there are any, have another scheme than "none", and no camera
  -- stands under the new identifier.
  pub create_cam_accepts :
      (now : ℕ) (name : ℕ → String) (request : CamWrite) (s : CamService)
      → now ≢ 0
      → ((k : ℕ) → Canonical parse (name k))
      → validate_uuid_v7 parse "tenant_id" s.tenant_id ≡ []
      → validate_trimmed_string "health.probe.owner_node_id" s.node_id 1 0 ≡ []
      → ((w : CamCredentialsWrite) → request.credentials ≡ some w → w.scheme ≢ "none")
      → validate_cam_write parse parse_url (apply_defaults request) ≡ []
      → lookup (name 0) s.store.cameras ≡ none
      → (s' : CamService) × (cam : Cam) × (create_cam parse parse_url now
            (λ k. ok (name k))
            request
            s
          ≡ ok (s', cam))
        × (cam.cam_id ≡ name 0)
  unfolding create_cam apply_defaults
  create_cam_accepts now name request s set known tenant node apart good free =
      let body = apply_defaults request in
      let at_site : validate_site parse parse_url body.site ≡ [] = site_checked body good in
      let (site, chosen, site_ok) =
        chosen_site_valid parse parse_url name body.site known at_site in
      let profiles = made name site.1 body.profiles in
      let probe_id = name (site.1 + length profiles) in
      let valid =
        cam_valid now (name 0) probe_id site profiles body s set (known 0)
          (known (site.1 + length profiles)) tenant node apart good site_ok
          (profiles_made parse parse_url name site.1 body.profiles known) in
      let cam = new_cam now (name 0) site.0 profiles probe_id body s in
      let (s', saved) = save_new_free cam body.credentials s free in
      (
        s',
        cam,
        create_checked_done now (λ k. ok (name k)) body s s' cam good
            (make_cam-made now name body s site chosen) valid saved,
        refl,
      )
