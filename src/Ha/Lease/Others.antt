-- ===== src/Ha/Lease/Others.antt =====
-- A lease while others use the service: internal/ha/lease.go. A call of another viewer is one that
-- issues a lease under another identifier, or one that comes with a token for another lease.
use cam_server.Base.{
  ℕ, ◌+◌, ◌≤◌, ◌≡◌, ◌≢◌, refl, sym, ◌∙◌, some, String, List, [], ◌∷◌, GoMap, lookup, insert, arith,
  ok, eq_iff, lookup-insert, Distinct, Distinct-insert, Distinct-delete_if, ltb, Result-cases,
  Option-cases, Bool-cases, inl, inr, str_eq,
}
use cam_server.Ha.Lease.{
  Lease, LeaseInput, TokenClaims, Codec, LeaseService, gc, save_lease, get_lease, parse_token,
  new_lease, issue, renew, reattach_claims, reattach,
}
use cam_server.Ha.Lease.Reattach.{lookup-gc, kept_by-gc}

-- A call, with its time.
pub data Call : Type 0 where
  issued : ℕ → String → LeaseInput → Call
  came_back : ℕ → String → Call

abbrev pub call_time : Call → ℕ
call_time (issued now id input) = now
call_time (came_back now token) = now

module _ (codec : Codec) where
  unfoldable pub run_call : Call → LeaseService → LeaseService
  run_call (issued now id input) s = (issue codec now id input s).0
  run_call (came_back now token) s = (reattach codec now token s).0

  unfoldable pub run_calls : List Call → LeaseService → LeaseService
  run_calls [] s = s
  run_calls (call ∷ calls) s = run_calls calls (run_call call s)

  -- The call is about another lease.
  abbrev pub IsOther : String → Call → Type 0
  IsOther id (issued now id' input) = id' ≢ id
  IsOther id (came_back now token) =
      (c : TokenClaims) → parse_token codec token ≡ ok c → c.lease_id ≢ id

  -- All calls are about other leases, and none is later than the time `until`.
  abbrev pub Others : String → ℕ → List Call → Type 0
  Others id until [] = Unit
  Others id until (call ∷ calls) =
      (call_time call ≤ until) × IsOther id call × Others id until calls

-- A store in which no two leases have one identifier and each stands under its own.
abbrev pub IsStore : GoMap Lease → Type 0
IsStore items = Distinct items × ((k : String) (x : Lease) → lookup k items ≡ some x → x.id ≡ k)

-- The lease stands as it is, in such a store, and the settings are these.
abbrev pub Kept : Lease → ℕ → ℕ → LeaseService → Type 0
Kept l ttl skew s =
    (lookup l.id s.items ≡ some l) × IsStore s.items × (s.ttl ≡ ttl) × (s.skew ≡ skew)

gc-IsStore : (now : ℕ) (items : GoMap Lease) → IsStore items → IsStore (gc now items)
unfolding gc
gc-IsStore now items (d, named) = (
  Distinct-delete_if (λ l. ltb l.expires_at now) items d,
  λ k x there. named k x (lookup-gc now k x items d there).0,
)

insert-IsStore : (l : Lease) (items : GoMap Lease) → IsStore items → IsStore (insert l.id l items)
insert-IsStore l items (d, named) = (
  Distinct-insert l.id l items d,
  λ k x there. elim (Bool-cases (str_eq l.id k)) [
    | inl same ↦ ground (arith, same, there, lookup-insert l.id k l items, eq_iff l.id k)
    | inr apart ↦ named k x (ground (arith, apart, there, lookup-insert l.id k l items))
  ],
)

pub save_lease-IsStore :
    (now : ℕ) (l : Lease) (s : LeaseService) → IsStore s.items → IsStore (save_lease now l s).items
unfolding save_lease
save_lease-IsStore now l s h = gc-IsStore now _ (insert-IsStore l s.items h)

pub saved-settings :
    (now : ℕ) (l : Lease) (s : LeaseService)
    → ((save_lease now l s).ttl ≡ s.ttl) × ((save_lease now l s).skew ≡ s.skew)
unfolding save_lease
saved-settings now l s = (refl, refl)

save_lease-Kept :
    (now ttl skew : ℕ) (l other : Lease) (s : LeaseService)
    → now ≤ l.expires_at
    → other.id ≢ l.id
    → Kept l ttl skew s
    → Kept l ttl skew (save_lease now other s)
unfolding save_lease
save_lease-Kept now ttl skew l other s fresh apart (there, h, t, k) =
    let stays : lookup l.id (insert other.id other s.items) ≡ some l =
      ground
        (arith, apart, there, eq_iff other.id l.id, lookup-insert other.id l.id other s.items) in
    (
      kept_by-gc now l.id l _ (insert-IsStore other s.items h).0 stays fresh,
      save_lease-IsStore now other s h,
      t,
      k,
    )

collected-Kept :
    (now ttl skew : ℕ) (l : Lease) (s : LeaseService)
    → now ≤ l.expires_at
    → Kept l ttl skew s
    → Kept l ttl skew (record s { items = gc now s.items })
collected-Kept now ttl skew l s fresh (there, h, t, k) =
    (kept_by-gc now l.id l s.items h.0 there fresh, gc-IsStore now s.items h, t, k)

module _ (codec : Codec) where
  renew-Kept :
      (now ttl skew : ℕ) (l found : Lease) (c : TokenClaims) (s : LeaseService)
      → now ≤ l.expires_at
      → found.id ≢ l.id
      → Kept l ttl skew s
      → Kept l ttl skew (renew codec now c found s).0
  unfolding renew
  renew-Kept now ttl skew l found c s fresh apart h =
      let saved =
        save_lease-Kept now ttl skew l (record found { issued_at = now; expires_at = now + s.ttl })
          s fresh apart h in
      ground (arith, h, saved)

  reattach_claims-Kept :
      (now ttl skew : ℕ) (l : Lease) (c : TokenClaims) (s : LeaseService)
      → now ≤ l.expires_at
      → c.lease_id ≢ l.id
      → Kept l ttl skew s
      → Kept l ttl skew (reattach_claims codec now c s).0
  unfolding reattach_claims get_lease
  reattach_claims-Kept now ttl skew l c s fresh apart h =
      let swept : LeaseService = record s { items = gc now s.items } in
      let clean = collected-Kept now ttl skew l s fresh h in
      elim (Option-cases (lookup c.lease_id (gc now s.items))) [
        | inl e ↦ ground (arith, e, h, clean)
        | inr (found, e) ↦
            let its : found.id ≡ c.lease_id = clean.1.1 c.lease_id found e in
            let other : found.id ≢ l.id = λ same. apart (sym its ∙ same) in
            ground (arith, e, h, renew-Kept now ttl skew l found c swept fresh other clean)
      ]

  run_call-Kept :
      (ttl skew : ℕ) (l : Lease) (call : Call) (s : LeaseService)
      → call_time call ≤ l.expires_at
      → IsOther codec l.id call
      → Kept l ttl skew s
      → Kept l ttl skew (run_call codec call s)
  unfolding run_call issue reattach
  run_call-Kept ttl skew l (issued now id input) s fresh other h =
      save_lease-Kept now ttl skew l (new_lease codec now id input s) s fresh other h
  run_call-Kept ttl skew l (came_back now token) s fresh other h =
      elim (Result-cases (parse_token codec token)) [
        | inl (why, e) ↦ ground (arith, e, h)
        | inr (c, e) ↦
            ground (arith, e, reattach_claims-Kept now ttl skew l c s fresh (other c e) h)
      ]

  -- A lease stands as it is through any calls about other leases, as long as it has not expired.
  pub run_calls-Kept :
      (ttl skew : ℕ) (l : Lease) (calls : List Call) (s : LeaseService)
      → Others codec l.id l.expires_at calls
      → Kept l ttl skew s
      → Kept l ttl skew (run_calls codec calls s)
  unfolding run_calls
  run_calls-Kept ttl skew l [] s others h = h
  run_calls-Kept ttl skew l (call ∷ calls) s (fresh, other, others) h =
      run_calls-Kept ttl skew l calls (run_call codec call s) others
        (run_call-Kept ttl skew l call s fresh other h)
