-- ===== src/Ha/Lease/Signed.antt =====
-- What `parseToken` of internal/ha/lease.go accepts.
use mathlib.Core.Path.{subst}
use cam_server.Base.{
  ◌≡◌, ◌≢◌, refl, ◌∙◌, ap, Option, none, some, List-cases, [], ◌∷◌, String, arith, ok, eq_iff, inl,
  inr,
}
use cam_server.Ha.Lease.{TokenClaims, Codec, parse_token, check_claims}

module _ (codec : Codec) where
  open codec use {decode, signature, split}

  -- What `parseToken` accepts: the payload and its signature, with the claims in the payload, which name a
  -- lease and a stream.
  abbrev pub Signed : String → TokenClaims → Type 0
  Signed token c =
      ((payload : String) × (split token ≡ payload ∷ signature payload ∷ [])
        × (decode payload ≡ some c))
      × (c.lease_id ≢ "")
      × (c.stream_key ≢ "")

  check_claims-named :
      (o : Option TokenClaims) (c : TokenClaims)
      → check_claims codec o ≡ ok c
      → (o ≡ some c) × (c.lease_id ≢ "") × (c.stream_key ≢ "")
  check_claims-named none c done = absurd (ground (arith, done))
  check_claims-named (some k) c done =
      let same : k ≡ c = ground (arith, done) in
      (
        ap some same,
        subst (λ x. x.lease_id ≢ "") same (ground (arith, done, eq_iff k.lease_id "")),
        subst (λ x. x.stream_key ≢ "") same
            (ground (arith, done, eq_iff k.lease_id "", eq_iff k.stream_key "")),
      )

  pub parse_token-Signed :
      (token : String) (c : TokenClaims) → parse_token codec token ≡ ok c → Signed token c
  unfolding parse_token
  parse_token-Signed token c done = elim (List-cases (split token)) [
    | inl e ↦ absurd (ground (arith, e, done))
    | inr (payload, rest, e) ↦ elim (List-cases rest) [
      | inl f ↦ absurd (ground (arith, e, f, done))
      | inr (mac, more, f) ↦ elim (List-cases more) [
        | inr (x, xs, g) ↦ absurd (ground (arith, e, f, g, done))
        | inl g ↦
            let same : signature payload ≡ mac =
              ground (arith, e, f, g, done, eq_iff (signature payload) mac) in
            let checked : check_claims codec (decode payload) ≡ ok c =
              ground (arith, e, f, g, done) in
            let (decoded, named, keyed) = check_claims-named (decode payload) c checked in
            ((payload, rw (same) (e ∙ rw (f, g) refl), decoded), named, keyed)
      ]
    ]
  ]
