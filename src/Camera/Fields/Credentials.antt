-- ===== src/Camera/Fields/Credentials.antt =====
-- Which credentials the two `Validate` methods accept.
use mathlib.Core.List.{append-eq-nil_iff}
use cam_server.Base.{
  ◌≤◌, ◌≡◌, ◌≢◌, ◌↔◌, ◌⊎◌, inl, inr, refl, Bool-cases, Bool, true, false, String, [], ◌++◌, str_eq,
  eq_iff, arith, not,
}
use cam_server.Camera.Fields.{
  Problem, must_be_absent, required, when, valid_scheme, validate_trimmed_string,
  validate_credentials,
}
use cam_server.Camera.Model.{CamCredentials}
use cam_server.Camera.Texts.{trimmed, rune_count}

-- A user name: no space around it, and from 1 to 128 characters.
abbrev pub IsUsername : String → Type 0
IsUsername name = (trimmed name ≡ true) × (1 ≤ rune_count name) × (rune_count name ≤ 128)

-- What is asked of a scheme, a user name and a secret.
abbrev pub IsCredential : String → String → String → Type 0
IsCredential scheme username secret =
    ((scheme ≡ "none") × (username ≡ "") × (secret ≡ ""))
    ⊎ (((scheme ≡ "basic") ⊎ (scheme ≡ "digest")) × IsUsername username × (secret ≢ ""))

IsUsername-iff :
    (field name : String) → (validate_trimmed_string field name 1 128 ≡ []) ↔ IsUsername name
unfolding validate_trimmed_string
IsUsername-iff field name = (λ h. ground arith, λ h. ground arith)

both_iff : (a b : Bool) (p q : Problem) → (when a p ++ when b q ≡ []) ↔ ((a ≡ false) × (b ≡ false))
both_iff true b p q = (λ h. cc, λ h. cc)
both_iff false b p q = (λ h. ground arith, λ h. ground arith)

checked_iff :
    (field name : String) (b : Bool) (q : Problem)
    → (validate_trimmed_string field name 1 128 ++ when b q ≡ []) ↔ (IsUsername name × (b ≡ false))
checked_iff field name b q = (
  λ h.
      let (good, rest) = append-eq-nil_iff.0 h in
      ((IsUsername-iff field name).0 good, ground arith),
  λ (good, unset). rw ((IsUsername-iff field name).1 good, unset) refl,
)

none-scheme :
    (s : String) → str_eq s "none" ≡ true → (str_eq s "basic" ≡ false) × (str_eq s "digest" ≡ false)
none-scheme s h =
    let is_none : s ≡ "none" = ground (arith, eq_iff s "none") in rw is_none (refl, refl)

-- Credentials are accepted, as they are stored, exactly if the scheme is "none" and there is neither
-- a user name nor a reference, or the scheme is "basic" or "digest", the user name has from 1 to 128
-- characters without space around it and there is a reference.
pub validate_credentials_iff :
    (c : CamCredentials)
    → (validate_credentials c ≡ []) ↔ IsCredential c.scheme c.username c.password_ref
unfolding validate_credentials valid_scheme
validate_credentials_iff c =
    let n = eq_iff c.scheme "none" in
    let b = eq_iff c.scheme "basic" in
    let d = eq_iff c.scheme "digest" in
    let u = eq_iff c.username "" in
    let r = eq_iff c.password_ref "" in
    let both =
      both_iff (not (str_eq c.username "")) (not (str_eq c.password_ref ""))
        (must_be_absent "credentials.username") (must_be_absent "credentials.password_ref") in
    let checked =
      checked_iff "credentials.username" c.username (str_eq c.password_ref "")
        (required "credentials.password_ref") in
    elim (Bool-cases (str_eq c.scheme "none")) [
      | inl e ↦ (
        λ h. ground (arith, n, b, d, u, r, both),
        λ h. ground (arith, n, b, d, u, r, both, none-scheme c.scheme e),
      )
      | inr e ↦
          (λ h. ground (arith, n, b, d, u, r, checked), λ h. ground (arith, n, b, d, u, r, checked))
    ]
