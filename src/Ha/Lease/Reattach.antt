-- ===== src/Ha/Lease/Reattach.antt =====
-- Who can come back to a lease, and what that gives.
use mathlib.Core.Path.{subst}
use Prim.Native.String.{◌++◌ as joined}
use cam_server.Base.{
  ℕ, ◌+◌, ◌*◌, ◌/◌, ◌≤◌, ◌≡◌, ◌≢◌, refl, sym, ◌∙◌, false, ◌||◌, some, String, GoMap, lookup, insert,
  ltb, arith, ok, eq_iff, lookup-delete_if, lookup-insert_self, Distinct, Distinct-insert,
  Distinct-delete_if, Result-cases, Option-cases, inl, inr,
}
use cam_server.Ha.Lease.{
  Lease, LeaseInput, TokenClaims, Codec, second, LeaseService, gc, save_lease, get_lease,
  sign_token, parse_token, claims_of, new_lease, with_token, issue, renew, reattach_claims,
  reattach,
}
use cam_server.Ha.Lease.Signed.{Signed, parse_token-Signed}

pub lookup-gc :
    (now : ℕ) (id : String) (l : Lease) (items : GoMap Lease)
    → Distinct items
    → lookup id (gc now items) ≡ some l
    → (lookup id items ≡ some l) × (now ≤ l.expires_at)
unfolding gc
lookup-gc now id l items d there =
    let law = lookup-delete_if (λ l. ltb l.expires_at now) id items d in
    elim (Option-cases (lookup id items)) [
      | inl e ↦ ground (arith, law, e, there)
      | inr (l0, e) ↦ (ground (arith, law, e, there), ground (arith, law, e, there))
    ]

pub kept_by-gc :
    (now : ℕ) (id : String) (l : Lease) (items : GoMap Lease)
    → Distinct items
    → lookup id items ≡ some l
    → now ≤ l.expires_at
    → lookup id (gc now items) ≡ some l
unfolding gc
kept_by-gc now id l items d there fresh =
    ground (arith, there, fresh, lookup-delete_if (λ l. ltb l.expires_at now) id items d)

pub lookup-saved :
    (now : ℕ) (l : Lease) (s : LeaseService)
    → Distinct s.items
    → now ≤ l.expires_at
    → lookup l.id (save_lease now l s).items ≡ some l
unfolding save_lease gc
lookup-saved now l s d fresh = ground (
  arith,
  fresh,
  lookup-delete_if (λ l. ltb l.expires_at now) l.id (insert l.id l s.items)
      (Distinct-insert l.id l s.items d),
  lookup-insert_self l.id l s.items,
)

pub save_lease-Distinct :
    (now : ℕ) (l : Lease) (s : LeaseService)
    → Distinct s.items
    → Distinct (save_lease now l s).items
unfolding save_lease gc
save_lease-Distinct now l s d =
    Distinct-delete_if (λ l. ltb l.expires_at now) (insert l.id l s.items)
      (Distinct-insert l.id l s.items d)

module _ (codec : Codec) where
  open codec use {encode, decode, signature, split, trim, decode-encode, split_token}

  -- A token that the service signs is read back, if it names a lease and a stream.
  pub parse_token-sign_token :
      (c : TokenClaims) (token : String)
      → c.lease_id ≢ ""
      → c.stream_key ≢ ""
      → sign_token codec c ≡ ok token
      → parse_token codec token ≡ ok c
  unfolding parse_token sign_token
  parse_token-sign_token c token named keyed signed = elim (Option-cases (encode c)) [
    | inl e ↦ absurd (ground (arith, e, signed))
    | inr (payload, e) ↦
        let it : joined payload (joined "." (signature payload)) ≡ token =
          ground (arith, e, signed) in
        subst (λ t. parse_token codec t ≡ ok c) it
          (ground (
            arith,
            named,
            keyed,
            split_token c payload e,
            decode-encode c payload e,
            eq_iff (signature payload) (signature payload),
            eq_iff c.lease_id "",
            eq_iff c.stream_key "",
          ))
  ]

  renew_ok :
      (now : ℕ) (c : TokenClaims) (l : Lease) (s : LeaseService)
      → l.stream_key ≡ c.stream_key
      → l.viewer_id ≡ c.viewer_id
      → now ≤ l.expires_at
      → let l' : Lease = record l { issued_at = now; expires_at = now + s.ttl } in
        renew codec now c l s ≡ (save_lease now l' s, with_token codec l')
  unfolding renew
  renew_ok now c l s key viewer fresh =
      ground (
        arith,
        key,
        viewer,
        fresh,
        eq_iff l.stream_key c.stream_key,
        eq_iff l.viewer_id c.viewer_id,
      )

  -- Only a token of two parts, of which the second is the service's signature of the first, leads back to a
  -- lease, at a time that is, but for the skew, in its window, and only to the one that its claims
  -- name, for the stream and the viewer that they name; that lease is in the store and has not expired, for
  -- which the skew counts nothing. It is renewed from the time of the call on, keeps everything else,
  -- and is what the new token names.
  pub reattach_ok :
      (now : ℕ) (token token' : String) (l' : Lease) (s s' : LeaseService)
      → Distinct s.items
      → reattach codec now token s ≡ (s', ok (l', token'))
      → (c : TokenClaims) × (l : Lease) × Signed codec token c
        × (c.iat * second ≤ now + s.skew)
        × (now ≤ c.exp * second + s.skew)
        × (lookup c.lease_id s.items ≡ some l)
        × (now ≤ l.expires_at)
        × (l.stream_key ≡ c.stream_key)
        × (l.viewer_id ≡ c.viewer_id)
        × (l' ≡ record l { issued_at = now; expires_at = now + s.ttl })
        × (sign_token codec (claims_of codec l') ≡ ok token')
  unfolding reattach reattach_claims get_lease renew
  reattach_ok now token token' l' s s' d done = elim (Result-cases (parse_token codec token)) [
    | inl (e, a) ↦ absurd (ground (arith, a, done))
    | inr (c, a) ↦ elim (Option-cases (lookup c.lease_id (gc now s.items))) [
      | inl b ↦ absurd (ground (arith, a, b, done))
      | inr (l, b) ↦
          let renewed : Lease = record l { issued_at = now; expires_at = now + s.ttl } in
          elim (Result-cases (sign_token codec (claims_of codec renewed))) [
            | inl (e, f) ↦ absurd (ground (arith, a, b, f, done))
            | inr (t, f) ↦
                let (there, fresh) = lookup-gc now c.lease_id l s.items d b in
                let same : renewed ≡ l' = ground (arith, a, b, f, done) in
                (
                  c,
                  l,
                  parse_token-Signed codec token c a,
                  ground (arith, a, b, f, done),
                  ground (arith, a, b, f, done),
                  there,
                  fresh,
                  ground (arith, a, b, f, done, eq_iff l.stream_key c.stream_key),
                  ground (arith, a, b, f, done, eq_iff l.viewer_id c.viewer_id),
                  sym same,
                  subst (λ k. sign_token codec (claims_of codec k) ≡ ok token') same
                      (f ∙ ground (arith, a, b, f, done)),
                )
          ]
    ]
  ]

  pub window_open :
      (now later ttl skew : ℕ) (c : TokenClaims)
      → c.iat ≡ now / second
      → c.exp ≡ (now + ttl) / second
      → now ≤ later + skew
      → later ≤ (now + ttl) / second * second + skew
      → (ltb (later + skew) (c.iat * second) || ltb (c.exp * second + skew) later) ≡ false
  window_open now later ttl skew c issued expires early late =
      let floor : now / second * second ≤ now = omega arith in
      ground (arith, issued, expires, early, late, floor)

  -- The service behind a lookup.
  abbrev pub collected : ℕ → LeaseService → LeaseService
  collected now s = record s { items = gc now s.items }

  pub reattach_found :
      (now : ℕ) (token : String) (c : TokenClaims) (l : Lease) (s : LeaseService)
      → parse_token codec token ≡ ok c
      → (ltb (now + s.skew) (c.iat * second) || ltb (c.exp * second + s.skew) now) ≡ false
      → Distinct s.items
      → lookup c.lease_id s.items ≡ some l
      → now ≤ l.expires_at
      → l.stream_key ≡ c.stream_key
      → l.viewer_id ≡ c.viewer_id
      → let l' : Lease = record l { issued_at = now; expires_at = now + s.ttl } in
        reattach codec now token s ≡ (save_lease now l' (collected now s), with_token codec l')
  unfolding reattach reattach_claims get_lease
  reattach_found now token c l s parsed is_open d there fresh key viewer =
      let kept = kept_by-gc now c.lease_id l s.items d there fresh in
      ground (arith, parsed, is_open, kept, renew_ok now c l (collected now s) key viewer fresh)

  abbrev pub renewed : ℕ → ℕ → Lease → Lease
  renewed later ttl l = record l { issued_at = later; expires_at = later + ttl }

  -- Where the claims can be encoded, a lease for a stream is issued, and its token leads back to it at any time that
  -- is not, but for the skew, before the issue or behind the token's expiry in whole seconds, and not behind
  -- the lease's own expiry. The lease then runs from that time on, is stored, and its new token is read back.
  pub reattach-issue :
      (now later : ℕ) (id token token' : String) (input : LeaseInput) (s : LeaseService)
      → Distinct s.items
      → id ≢ ""
      → trim input.stream_key ≢ ""
      → sign_token codec (claims_of codec (new_lease codec now id input s)) ≡ ok token
      → sign_token codec (claims_of codec (renewed later s.ttl (new_lease codec now id input s)))
        ≡ ok token'
      → now ≤ later + s.skew
      → later ≤ (now + s.ttl) / second * second + s.skew
      → later ≤ now + s.ttl
      → (s1 : LeaseService) × (s' : LeaseService) × (issue codec now id input s
          ≡ (s1, ok (new_lease codec now id input s, token)))
        × (reattach codec later token s1
            ≡ (s', ok (renewed later s.ttl (new_lease codec now id input s), token')))
        × ((get_lease later id s').1 ≡ some (renewed later s.ttl (new_lease codec now id input s)))
        × (parse_token codec token'
            ≡ ok (claims_of codec (renewed later s.ttl (new_lease codec now id input s))))
  unfolding issue save_lease get_lease gc
  reattach-issue now later id token token' input s d named keyed signed signed' early late fresh =
      let l = new_lease codec now id input s in
      let c = claims_of codec l in
      let s1 = save_lease now l s in
      let l' = renewed later s.ttl l in
      let parsed = parse_token-sign_token c token named keyed signed in
      let is_open = window_open now later s.ttl s.skew c refl refl early late in
      let there : lookup id s1.items ≡ some l = lookup-saved now l s d (omega arith) in
      let d1 : Distinct s1.items = save_lease-Distinct now l s d in
      let s2 = collected later s1 in
      let d2 : Distinct s2.items =
        Distinct-delete_if (λ (k : Lease). ltb k.expires_at later) s1.items d1 in
      let stored = lookup-saved later l' s2 d2 (omega arith) in
      let d3 = save_lease-Distinct later l' s2 d2 in
      (
        s1,
        save_lease later l' s2,
        ground (arith, signed),
        reattach_found later token c l s1 parsed is_open d1 there fresh refl refl
            ∙ ground (arith, signed'),
        kept_by-gc later id l' (save_lease later l' s2).items d3 stored (omega arith),
        parse_token-sign_token (claims_of codec l') token' named keyed signed',
      )
