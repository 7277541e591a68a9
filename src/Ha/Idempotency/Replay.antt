-- ===== src/Ha/Idempotency/Replay.antt =====
-- What a later request with the same key gets.
use cam_server.Base.{
  ℕ, ◌+◌, ◌≤◌, ◌<◌, ◌≡◌, refl, true, none, some, String, inl, inr, arith, GoMap, lookup, insert,
  delete, Distinct, lookup-delete_if, lookup-delete_self, Distinct-delete, Distinct-insert, ltb,
  Bool-cases, if◌then◌else◌, lookup-insert_self,
}
use cam_server.Ha.Idempotency.Safety.{
  prepare_entry_missing, prepare_entry_found, prepare_found_replay, settled_entry,
}
use cam_server.Ha.Idempotency.Store.{
  Store, Entry, CachedResponse, replay, produce, gc, expired, start_entry, prepare_entry,
  finalize_entry, replay_response,
}

replay_response-fresh :
    (now : ℕ) (e : Entry)
    → e.ready ≡ true
    → now < e.expires_at
    → replay_response e now ≡ some e.response
unfolding replay_response
replay_response-fresh now e ready early = ground arith

gc-fresh :
    (now : ℕ) (key : String) (e : Entry) (m : GoMap Entry)
    → Distinct m
    → lookup key m ≡ some e
    → now < e.expires_at
    → lookup key (gc now m) ≡ some e
unfolding gc
gc-fresh now key e m d found early = ground (arith, lookup-delete_if (expired now) key m d)

gc-stale :
    (now : ℕ) (key : String) (e : Entry) (m : GoMap Entry)
    → Distinct m
    → lookup key m ≡ some e
    → e.ready ≡ true
    → e.expires_at ≤ now
    → lookup key (gc now m) ≡ none
unfolding gc
gc-stale now key e m d found ready late = ground (arith, lookup-delete_if (expired now) key m d)

gc-missing :
    (now : ℕ) (key : String) (m : GoMap Entry)
    → Distinct m
    → lookup key m ≡ none
    → lookup key (gc now m) ≡ none
unfolding gc
gc-missing now key m d missing = ground (arith, lookup-delete_if (expired now) key m d)

finalize_entry-entries :
    (done : ℕ) (key : String) (id : ℕ) (resp : CachedResponse) (e : Entry) (s s' : Store)
    → lookup key s.entries ≡ some e
    → e.id ≡ id
    → finalize_entry done key id resp none s ≡ some s'
    → s'.entries ≡ insert key (settled_entry done s.ttl resp e) s.entries
unfolding finalize_entry
finalize_entry-entries done key id resp e s s' found same ended = ground arith

finalize_entry-entries_err :
    (done : ℕ) (key : String) (id : ℕ) (resp : CachedResponse) (x : String) (e : Entry)
    (s s' : Store)
    → lookup key s.entries ≡ some e
    → e.id ≡ id
    → finalize_entry done key id resp (some x) s ≡ some s'
    → s'.entries ≡ delete key s.entries
unfolding finalize_entry
finalize_entry-entries_err done key id resp x e s s' found same ended = ground arith

start_entry-produce :
    (now : ℕ) (key : String) (s : Store) → (start_entry now key s).1 ≡ produce s.next_id
unfolding start_entry
start_entry-produce now key s = refl

module _ (done now : ℕ) (key : String) (id : ℕ) (resp : CachedResponse) (e : Entry) (s s' : Store)
    (d : Distinct s.entries) (found : lookup key s.entries ≡ some e) (same : e.id ≡ id) where
  -- In a store without duplicate keys whose entry for the key is the producer's own: once the
  -- producer has ended without an error, at the time `done`, the next request with its key gets
  -- its response, and runs no producer, at every time before `done + ttl`; from then on it starts a
  -- new producer.
  pub replay_after_success :
      finalize_entry done key id resp none s ≡ some s'
      → (prepare_entry now key s').1
        ≡ (if ltb now (done + s.ttl) then replay resp none else produce s'.next_id)
  replay_after_success ended = elim (Bool-cases (ltb now (done + s.ttl))) [
    | inl early ↦
        let there = gc-fresh now key settled s'.entries distinct held (ground arith) in
        rw (
          early,
          prepare_entry_found now key s' settled there,
          prepare_found_replay now key _ settled resp
              (replay_response-fresh now settled refl (ground arith)),
        )
    | inr late ↦
        let gone = gc-stale now key settled s'.entries distinct held refl (ground arith) in
        rw (late, prepare_entry_missing now key s' gone) (start_entry-produce now key _)
  ]
    where
      settled : Entry
      settled = settled_entry done s.ttl resp e

      same_map : s'.entries ≡ insert key settled s.entries
      same_map = finalize_entry-entries done key id resp e s s' found same ended

      distinct : Distinct s'.entries
      distinct = rw same_map (Distinct-insert key settled s.entries d)

      held : lookup key s'.entries ≡ some settled
      held = rw same_map (lookup-insert_self key settled s.entries)

  -- In a store without duplicate keys whose entry for the key is the producer's own: once the
  -- producer has ended with an error, the next request with its key starts a new producer, at any
  -- time.
  pub retry_after_failure :
      (x : String)
      → finalize_entry done key id resp (some x) s ≡ some s'
      → (prepare_entry now key s').1 ≡ produce s'.next_id
  retry_after_failure x ended =
      rw (prepare_entry_missing now key s' gone) (start_entry-produce now key _)
    where
      same_map : s'.entries ≡ delete key s.entries
      same_map = finalize_entry-entries_err done key id resp x e s s' found same ended

      gone : lookup key (gc now s'.entries) ≡ none
      gone = rw same_map (
          gc-missing now key (delete key s.entries) (Distinct-delete key s.entries d)
            (lookup-delete_self key s.entries))
