-- ===== src/Ha/Lease/Return.antt =====
-- The way back to a lease that others leave alone: internal/ha/lease.go.
use cam_server.Base.{ℕ, ◌+◌, ◌*◌, ◌/◌, ◌≤◌, ◌≡◌, ◌≢◌, refl, ◌∙◌, String, List, arith, ok}
use cam_server.Ha.Lease.{
  LeaseInput, Codec, second, LeaseService, save_lease, sign_token, claims_of, new_lease, issue,
  reattach,
}
use cam_server.Ha.Lease.Reattach.{
  lookup-saved, parse_token-sign_token, window_open, collected, reattach_found, renewed,
}
use cam_server.Ha.Lease.Others.{
  Call, Others, IsStore, Kept, run_calls, run_calls-Kept, save_lease-IsStore, saved-settings,
}

module _ (codec : Codec) where
  -- A lease that is issued is found again with its token, after any calls about other leases.
  pub reattach-issue-Others :
      (now later : ℕ) (id token token' : String) (input : LeaseInput) (s : LeaseService)
      (calls : List Call)
      → IsStore s.items
      → id ≢ ""
      → codec.trim input.stream_key ≢ ""
      → sign_token codec (claims_of codec (new_lease codec now id input s)) ≡ ok token
      → sign_token codec
          (claims_of codec (renewed codec later s.ttl (new_lease codec now id input s)))
        ≡ ok token'
      → now ≤ later + s.skew
      → later ≤ (now + s.ttl) / second * second + s.skew
      → later ≤ now + s.ttl
      → Others codec id (now + s.ttl) calls
      → (s1 : LeaseService) × (s' : LeaseService) × (issue codec now id input s
          ≡ (s1, ok (new_lease codec now id input s, token)))
        × (reattach codec later token (run_calls codec calls s1)
            ≡ (s', ok (renewed codec later s.ttl (new_lease codec now id input s), token')))
  unfolding issue
  reattach-issue-Others now later id token token' input s calls h named keyed signed signed' early
        late fresh others =
      let l = new_lease codec now id input s in
      let c = claims_of codec l in
      let s1 = save_lease now l s in
      let settings = saved-settings now l s in
      let made : Kept l s.ttl s.skew s1 = (
        lookup-saved now l s h.0 (omega arith),
        save_lease-IsStore now l s h,
        settings.0,
        settings.1,
      ) in
      let s2 = run_calls codec calls s1 in
      let (there, store, ttl, skew) = run_calls-Kept codec s.ttl s.skew l calls s1 others made in
      let parsed = parse_token-sign_token codec c token named keyed signed in
      let is_open = window_open codec now later s.ttl s.skew c refl refl early late in
      (
        s1,
        save_lease later (renewed codec later s2.ttl l) (collected codec later s2),
        ground (arith, signed),
        reattach_found codec later token c l s2 parsed (rw skew is_open) store.0 there fresh refl
              refl
            ∙ rw ttl (ground (arith, signed')),
      )
