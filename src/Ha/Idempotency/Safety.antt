-- ===== src/Ha/Idempotency/Safety.antt =====
-- Every critical section keeps the invariant of the goroutines, and what follows for `Do`.
use cam_server.Base.{
  ℕ, ◌+◌, ◌≡◌, refl, true, false, Option, none, some, String, ◌∷◌, inl, inr, arith, eq_iff, str_eq,
  Bool-cases, Option-cases, GoMap, lookup, insert, delete, Distinct, lookup-delete, lookup-insert,
  lookup-delete_self, Distinct-delete, Distinct-insert, if◌then◌else◌, ◌==◌,
}
use cam_server.Ha.Idempotency.Store.{
  Store, Entry, CachedResponse, replay, wait, gc, start_entry, prepare_found, prepare_entry,
  finalize_entry, replay_response,
}
use cam_server.Ha.Idempotency.Threads.{
  Threads, after_prepare, Step, prepare, finish, Reach, here, next, Inv, gc-Inv, evict-Inv,
  delete-Inv,
}

-- A new entry under a key for which no producer runs.
insert-Inv :
    (key : String) (e : Entry) (s : Store) (running : GoMap ℕ)
    → Inv (record { store = s; running = running })
    → lookup key running ≡ none
    → e.id ≡ s.next_id
    → e.ready ≡ false
    → e.err ≡ none
    → Inv (record {
      store = record s { entries = insert key e s.entries; next_id = s.next_id + 1 };
      running = (key, s.next_id) ∷ running;
    })
unfolding lookup
insert-Inv key e s running h idle same busy clean = record {
  distinct_entries = Distinct-insert key e s.entries h.distinct_entries;
  distinct_running = (idle, h.distinct_running);
  owned = λ k id p. elim (Bool-cases (str_eq key k)) [
    | inl same_key ↦ (e, ground (arith, lookup-insert key k e s.entries), busy, ground arith)
    | inr other ↦
        let (x, found, open_entry, id_same) = h.owned k id (ground arith) in
        (x, ground (arith, lookup-insert key k e s.entries), open_entry, id_same)
  ];
  runs = λ k x p r. ground (arith, lookup-insert key k e s.entries, h.runs k x);
  own_entry = λ k j id p q.
      ground
        (arith, eq_iff key k, eq_iff key j, h.own_entry k j id, h.allocated k id, h.allocated j id);
  allocated = λ k id p. ground (arith, h.allocated k id);
  open_channel = λ k id p. ground (arith, h.open_channel k id, h.unused id);
  unused = λ id p. h.unused id (omega arith);
  no_error = λ k x p. ground (arith, lookup-insert key k e s.entries, h.no_error k x);
}

start_entry-Inv :
    (now : ℕ) (key : String) (s : Store) (running : GoMap ℕ)
    → Inv (record { store = s; running = running })
    → lookup key running ≡ none
    → Inv (after_prepare key running (start_entry now key s))
unfolding after_prepare start_entry
start_entry-Inv now key s running h idle =
    evict-Inv _ _ (insert-Inv key _ s running h idle refl refl refl)

-- No producer runs for a key whose entry is missing or finished.
pub idle_of_ready :
    (key : String) (s : Store) (running : GoMap ℕ)
    → Inv (record { store = s; running = running })
    → ((e : Entry) → lookup key s.entries ≡ some e → e.ready ≡ true)
    → lookup key running ≡ none
idle_of_ready key s running h ready = elim (Option-cases (lookup key running)) [
  | inl e ↦ e
  | inr (id, e) ↦ let (x, found, busy, same) = h.owned key id e in let done = ready x found in cc
]

module _ (now : ℕ) (key : String) (s : Store) (e : Entry) where
  pub prepare_found_replay :
      (resp : CachedResponse)
      → replay_response e now ≡ some resp
      → prepare_found now key s e ≡ (s, replay resp e.err)
  unfolding prepare_found
  prepare_found_replay resp h = rw (h, prepare_found)

  pub prepare_found_wait :
      replay_response e now ≡ none → e.ready ≡ false → prepare_found now key s e ≡ (s, wait e.id)
  unfolding prepare_found
  prepare_found_wait h busy = rw (h, busy, prepare_found)

  pub prepare_found_stale :
      replay_response e now ≡ none
      → e.ready ≡ true
      → prepare_found now key s e
        ≡ start_entry now key (record s { entries = delete key s.entries })
  unfolding prepare_found
  prepare_found_stale h done = rw (h, done, prepare_found)

  prepare_found-Inv :
      (running : GoMap ℕ)
      → Inv (record { store = s; running = running })
      → lookup key s.entries ≡ some e
      → Inv (after_prepare key running (prepare_found now key s e))
  unfolding after_prepare
  prepare_found-Inv running h found = elim (Option-cases (replay_response e now)) [
    | inr (resp, same) ↦ rw (prepare_found_replay resp same) h
    | inl stale ↦ elim (Bool-cases e.ready) [
      | inr busy ↦ rw (prepare_found_wait stale busy) h
      | inl done ↦ rw (prepare_found_stale stale done) (
          start_entry-Inv now key _ running (delete-Inv key e s running h found done)
            (idle_of_ready key s running h (λ x p. ground arith)))
    ]
  ]

module _ (now : ℕ) (key : String) (s : Store) where
  pub prepare_entry_missing :
      lookup key (gc now s.entries) ≡ none
      → prepare_entry now key s ≡ start_entry now key (record s { entries = gc now s.entries })
  unfolding prepare_entry
  prepare_entry_missing h = rw (h, prepare_entry)

  pub prepare_entry_found :
      (e : Entry)
      → lookup key (gc now s.entries) ≡ some e
      → prepare_entry now key s ≡ prepare_found now key (record s { entries = gc now s.entries }) e
  unfolding prepare_entry
  prepare_entry_found e h = rw (h, prepare_entry)

  prepare_entry-Inv :
      (running : GoMap ℕ)
      → Inv (record { store = s; running = running })
      → Inv (after_prepare key running (prepare_entry now key s))
  prepare_entry-Inv running h = elim (Option-cases (lookup key (gc now s.entries))) [
    | inl missing ↦ rw (prepare_entry_missing missing) (
        start_entry-Inv now key _ running (gc-Inv now s running h)
          (idle_of_ready key _ running (gc-Inv now s running h) (λ x p. cc)))
    | inr (e, found) ↦
        rw (prepare_entry_found e found)
          (prepare_found-Inv now key _ e running (gc-Inv now s running h) found)
  ]

abbrev pub settled_entry : ℕ → ℕ → CachedResponse → Entry → Entry
settled_entry now ttl resp e = record e {
  ready = true;
  response = resp;
  expires_at = now + ttl;
  err = none;
}

-- The store in which a producer leaves its entry; its channel is closed.
unfoldable pub finished : ℕ → String → Entry → CachedResponse → Option String → Store → Store
finished now key e resp err s = record s {
  entries = elim err [
    | some _ ↦ delete key s.entries
    | none ↦ insert key (settled_entry now s.ttl resp e) s.entries
  ];
  closed = λ j. if j == e.id then true else s.closed j;
}

-- The entry of a producer is in the map when the producer ends, and its channel is open: neither
-- early return of `finalizeEntry` is taken, and `close` does not panic.
pub finalize_running :
    (now : ℕ) (key : String) (resp : CachedResponse) (err : Option String) (e : Entry) (s : Store)
    → lookup key s.entries ≡ some e
    → s.closed e.id ≡ false
    → finalize_entry now key e.id resp err s ≡ some (finished now key e resp err s)
unfolding finalize_entry finished
finalize_running now key resp none e s found open_channel =
    rw (found, finalize_entry) (ground arith)
finalize_running now key resp (some x) e s found open_channel =
    rw (found, finalize_entry) (ground arith)

-- Whatever the map holds under the key of a producer that ends, if it is finished.
settle-Inv :
    (key : String) (id : ℕ) (t : Threads) (m : GoMap Entry)
    → Inv t
    → lookup key t.running ≡ some id
    → Distinct m
    → ((k : String) → str_eq key k ≡ false → lookup k m ≡ lookup k t.store.entries)
    → ((e : Entry) → lookup key m ≡ some e → (e.ready ≡ true) × (e.err ≡ none))
    → Inv (record {
      store = record t.store {
        entries = m;
        closed = λ j. if j == id then true else t.store.closed j;
      };
      running = delete key t.running;
    })
settle-Inv key id t m h mine d others settled = record {
  distinct_entries = d;
  distinct_running = Distinct-delete key t.running h.distinct_running;
  owned = λ k i p.
      let (x, found, busy, same) = h.owned k i (ground (arith, lookup-delete key k t.running)) in
      (x, ground (arith, lookup-delete key k t.running, others k), busy, same);
  runs = λ k x p r. elim (Bool-cases (str_eq key k)) [
    | inl same ↦ let e : key ≡ k = (eq_iff key k).0 same in ground (arith, settled x (rw e p))
    | inr differ ↦ ground (arith, lookup-delete key k t.running, others k differ, h.runs k x)
  ];
  own_entry = λ k j i p q.
      ground
        (arith, lookup-delete key k t.running, lookup-delete key j t.running, h.own_entry k j i);
  allocated = λ k i p. ground (arith, lookup-delete key k t.running, h.allocated k i);
  open_channel = λ k i p.
      ground (
        arith,
        lookup-delete key k t.running,
        h.open_channel k i,
        h.own_entry key k i,
        eq_iff key k,
      );
  unused = λ i p. ground (arith, h.unused i, h.allocated key id);
  no_error = λ k x p. elim (Bool-cases (str_eq key k)) [
    | inl same ↦ let e : key ≡ k = (eq_iff key k).0 same in (settled x (rw e p)).1
    | inr differ ↦ h.no_error k x (ground (arith, others k differ))
  ];
}

finished-Inv :
    (now : ℕ) (key : String) (resp : CachedResponse) (err : Option String) (e : Entry) (t : Threads)
    → Inv t
    → lookup key t.running ≡ some e.id
    → Inv (record { store = finished now key e resp err t.store; running = delete key t.running })
unfolding finished
finished-Inv now key resp none e t h mine =
    settle-Inv key e.id t _ h mine (Distinct-insert key _ t.store.entries h.distinct_entries)
      (λ k differ.
        ground (arith, lookup-insert key k (settled_entry now t.store.ttl resp e) t.store.entries))
      (λ x p. ground (
        arith,
        eq_iff key key,
        lookup-insert key key (settled_entry now t.store.ttl resp e) t.store.entries,
      ))
finished-Inv now key resp (some x) e t h mine =
    settle-Inv key e.id t _ h mine (Distinct-delete key t.store.entries h.distinct_entries)
      (λ k differ. ground (arith, lookup-delete key k t.store.entries))
      (λ x p. ground (arith, lookup-delete_self key t.store.entries))

-- Every critical section keeps the invariant.
Step-Inv : {t u : Threads} → Step t u → Inv t → Inv u
Step-Inv (prepare t now key) h = prepare_entry-Inv now key t.store t.running h
Step-Inv (finish t now key id resp err s mine ended) h =
    let (e, found, busy, same) = h.owned key id mine in
    let mine' : lookup key t.running ≡ some e.id = rw (same) mine in
    let open_channel = h.open_channel key e.id mine' in
    let result : finalize_entry now key e.id resp err t.store ≡ some s = rw same ended in
    let final : finished now key e resp err t.store ≡ s =
      cc (finalize_running now key resp err e t.store found open_channel) in
    rw (← final) (finished-Inv now key resp err e t h mine')

pub Reach-Inv : {t u : Threads} → Reach t u → Inv t → Inv u
Reach-Inv here h = h
Reach-Inv (next r st) h = Step-Inv st (Reach-Inv r h)
