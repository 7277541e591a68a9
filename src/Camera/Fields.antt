-- ===== src/Camera/Fields.antt =====
-- internal/camera/validation.go: the checks of single fields, profiles and credentials. What a
-- `Validate` returns is the list of problems that `errors.Join` makes one error of, and no problem is
-- the nil error.
pub mod Credentials
pub mod Profiles
use cam_server.Base.{
  ℕ, suc, ℤ, pos, negsuc, Bool, true, false, not, ◌&&◌, ◌||◌, Option, none, some, String, List, [],
  ◌∷◌, ◌++◌, ltb, ◌==◌, str_eq, elem, if◌then◌else◌,
}
use cam_server.Camera.Model.{
  CamCredentials, CamCredentialsWrite, ResolutionHint, CamProfile, CamProfileWrite,
}
use cam_server.Camera.Texts.{trimmed, has_slash, rune_count}

-- One error, by the message's fixed part and the field or the value that it is about.
pub data Problem : Type 0 where
  not_trimmed : String → Problem
  too_short : String → ℕ → Problem
  too_long : String → ℕ → Problem
  not_uuid : String → Problem
  is_invalid : String → String → Problem
  not_unique : String → Problem
  out_of_range : String → ℕ → ℕ → Problem
  negative : String → Problem
  required : String → Problem
  must_be_absent : String → Problem
  problem : String → Problem

-- `if b { errs = append(errs, p) }`
abbrev pub when : Bool → Problem → List Problem
when b p = if b then p ∷ [] else []

-- `x < low || x > high`
abbrev pub outside : ℕ → ℕ → ℤ → Bool
outside low high (pos n) = ltb n low || ltb high n
outside low high (negsuc n) = true

abbrev pub check_range : String → ℕ → ℕ → ℤ → List Problem
check_range field low high x = when (outside low high x) (out_of_range field low high)

-- The same behind a pointer that may be nil.
abbrev pub check_hint : String → ℕ → ℕ → Option ℤ → List Problem
check_hint field low high none = []
check_hint field low high (some x) = check_range field low high x

-- `validateTrimmedString`; an upper bound of 0 is no bound.
unfoldable pub validate_trimmed_string : String → String → ℕ → ℕ → List Problem
validate_trimmed_string field value min_runes max_runes =
    let length = rune_count value in
    if not (trimmed value)
    then not_trimmed field ∷ []
    else if ltb length min_runes
    then too_short field min_runes ∷ []
    else when (ltb 0 max_runes && ltb max_runes length) (too_long field max_runes)

-- `CredentialScheme.Valid`
unfoldable pub valid_scheme : String → Bool
valid_scheme s = str_eq s "basic" || str_eq s "digest" || str_eq s "none"

-- `CamCredentials.Validate`
unfoldable pub validate_credentials : CamCredentials → List Problem
validate_credentials c =
    if not (valid_scheme c.scheme)
    then is_invalid "credentials.scheme" c.scheme ∷ []
    else if str_eq c.scheme "none"
    then when (not (str_eq c.username "")) (must_be_absent "credentials.username")
      ++ when (not (str_eq c.password_ref "")) (must_be_absent "credentials.password_ref")
    else validate_trimmed_string "credentials.username" c.username 1 128
      ++ when (str_eq c.password_ref "") (required "credentials.password_ref")

-- `CamCredentialsWrite.Validate`
unfoldable pub validate_credentials_write : CamCredentialsWrite → List Problem
validate_credentials_write c =
    if not (valid_scheme c.scheme)
    then is_invalid "credentials.scheme" c.scheme ∷ []
    else if str_eq c.scheme "none"
    then when (not (str_eq c.username "")) (must_be_absent "credentials.username")
      ++ when (not (str_eq c.password "")) (must_be_absent "credentials.password")
    else validate_trimmed_string "credentials.username" c.username 1 128
      ++ when (str_eq c.password "") (required "credentials.password")

-- `CodecHint.Valid`
unfoldable pub valid_codec : String → Bool
valid_codec c = str_eq c "h264" || str_eq c "h265" || str_eq c "mjpeg" || str_eq c "unknown"

-- `ResolutionHint.Validate`
unfoldable pub validate_resolution : ResolutionHint → List Problem
validate_resolution r =
    check_range "profile.resolution_hint.width" 1 8192 r.width
    ++ check_range "profile.resolution_hint.height" 1 8192 r.height

abbrev pub check_resolution : Option ResolutionHint → List Problem
check_resolution none = []
check_resolution (some r) = validate_resolution r

-- `validateProfileFields`
unfoldable pub validate_profile_fields :
    String → String → String → Option ResolutionHint → Option ℤ → Option ℤ → List Problem
validate_profile_fields name stream_path codec_hint resolution_hint bitrate_kbps_hint
      framerate_hint =
    validate_trimmed_string "profile.name" name 1 64
    ++ when (not (str_eq stream_path "") && not (has_slash stream_path))
        (problem "profile.stream_path must begin with / when present")
    ++ when (not (valid_codec codec_hint)) (is_invalid "profile.codec_hint" codec_hint)
    ++ check_resolution resolution_hint
    ++ check_hint "profile.bitrate_kbps_hint" 1 200000 bitrate_kbps_hint
    ++ check_hint "profile.framerate_hint" 1 240 framerate_hint

-- `CamProfileWrite.Validate`
unfoldable pub validate_profile_write : CamProfileWrite → List Problem
validate_profile_write p =
    validate_profile_fields p.name p.stream_path p.codec_hint p.resolution_hint p.bitrate_kbps_hint
      p.framerate_hint

-- The loop of `validateProfiles` and of `validateWriteProfiles`, with the names that were seen.
abbrev pub check_name : String → List String → List Problem
check_name name seen = when (elem name seen) (not_unique name)

abbrev pub only_one : ℕ → List Problem
only_one n = when (not (n == 1)) (problem "profiles must contain exactly one default profile")

abbrev pub more : Bool → ℕ → ℕ
more is_default n = if is_default then suc n else n

unfoldable pub validate_write_loop : List String → ℕ → List CamProfileWrite → List Problem
validate_write_loop seen defaults [] = only_one defaults
validate_write_loop seen defaults (p ∷ ps) =
    validate_profile_write p
    ++ check_name p.name seen
    ++ validate_write_loop (p.name ∷ seen) (more p.is_default defaults) ps

-- `validateWriteProfiles`
unfoldable pub validate_write_profiles : List CamProfileWrite → List Problem
validate_write_profiles [] = problem "profiles must contain at least one profile" ∷ []
validate_write_profiles (p ∷ ps) = validate_write_loop [] 0 (p ∷ ps)

-- github.com/google/uuid: `uuid.Parse`, with the version of the result and its `String`.
pub record Uuid : Type 0 where
  pub version : ℕ
  pub text : String

module _ (parse : String → Option Uuid) where
  -- `validateUUIDV7`
  unfoldable pub validate_uuid_v7 : String → String → List Problem
  validate_uuid_v7 field value = elim (parse value) [
    | none ↦ not_uuid field ∷ []
    | some u ↦ when (not (u.version == 7) || not (str_eq u.text value)) (not_uuid field)
  ]

  -- `CamProfile.Validate`
  unfoldable pub validate_profile : CamProfile → List Problem
  validate_profile p =
      validate_uuid_v7 "profile.profile_id" p.profile_id
      ++ validate_profile_fields p.name p.stream_path p.codec_hint p.resolution_hint
          p.bitrate_kbps_hint p.framerate_hint

  unfoldable pub validate_loop : List String → ℕ → List CamProfile → List Problem
  validate_loop seen defaults [] = only_one defaults
  validate_loop seen defaults (p ∷ ps) =
      validate_profile p
      ++ check_name p.name seen
      ++ validate_loop (p.name ∷ seen) (more p.is_default defaults) ps

  -- `validateProfiles`
  unfoldable pub validate_profiles : List CamProfile → List Problem
  validate_profiles [] = problem "profiles must contain at least one profile" ∷ []
  validate_profiles (p ∷ ps) = validate_loop [] 0 (p ∷ ps)
