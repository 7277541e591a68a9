-- ===== src/Ha/Idempotency/Answers.antt =====
-- What the goroutines in `IdempotencyStore.Do` can rely on, in every interleaving.
use cam_server.Base.{
  ℕ, ◌≤◌, ◌≡◌, refl, false, Option, none, some, String, inl, inr, ℤ, arith, Bool-cases,
  Option-cases, lookup,
}
use cam_server.Ha.Idempotency.Safety.{
  Reach-Inv, finished, finalize_running, idle_of_ready, prepare_found_replay, prepare_found_wait,
  prepare_found_stale, prepare_entry_missing, prepare_entry_found,
}
use cam_server.Ha.Idempotency.Store.{
  Store, Entry, CachedResponse, Outcome, replay, wait, produce, gc, start_entry, prepare_found,
  prepare_entry, finalize_entry, replay_response,
}
use cam_server.Ha.Idempotency.Threads.{Threads, Reach, Inv, fresh, fresh-Inv, gc-Inv}

-- In every interleaving that starts from a new store: a goroutine that ends its producer finds its
-- own entry in the map, and the call of `finalizeEntry` takes neither early return and closes the
-- channel of the entry for the first time, so that it does not panic.
pub finalize_entry-Reach :
    (ttl max_keys : ℤ) (t : Threads) (now : ℕ) (key : String) (id : ℕ) (resp : CachedResponse)
    (err : Option String)
    → Reach (fresh ttl max_keys) t
    → lookup key t.running ≡ some id
    → (e : Entry) × (lookup key t.store.entries ≡ some e)
      × (e.id ≡ id)
      × (t.store.closed id ≡ false)
      × (finalize_entry now key id resp err t.store ≡ some (finished now key e resp err t.store))
finalize_entry-Reach ttl max_keys t now key id resp err r mine =
    let h = Reach-Inv r (fresh-Inv ttl max_keys) in
    let (e, found, busy, same) = h.owned key id mine in
    let open_channel = h.open_channel key id mine in
    (
      e,
      found,
      same,
      open_channel,
      rw (← same) (finalize_running now key resp err e t.store found (rw same open_channel)),
    )

-- What `prepareEntry` may answer for a key.
abbrev pub Allowed : String → Threads → Outcome → Type 0
Allowed key t (replay resp err) = err ≡ none
Allowed key t (wait id) = (lookup key t.running ≡ some id) × (t.store.closed id ≡ false)
Allowed key t (produce id) = (lookup key t.running ≡ none) × (t.store.closed id ≡ false)

start_entry-Allowed :
    (now : ℕ) (key : String) (t : Threads) (s : Store)
    → s.next_id ≡ t.store.next_id
    → s.closed ≡ t.store.closed
    → ((id : ℕ) → t.store.next_id ≤ id → t.store.closed id ≡ false)
    → lookup key t.running ≡ none
    → Allowed key t (start_entry now key s).1
unfolding start_entry
start_entry-Allowed now key t s same_next same_closed unused idle =
    (idle, unused s.next_id (omega arith))

prepare_found-Allowed :
    (now : ℕ) (key : String) (t : Threads) (s : Store) (e : Entry)
    → s.next_id ≡ t.store.next_id
    → s.closed ≡ t.store.closed
    → Inv (record { store = s; running = t.running })
    → lookup key s.entries ≡ some e
    → Allowed key t (prepare_found now key s e).1
prepare_found-Allowed now key t s e same_next same_closed h found =
    elim (Option-cases (replay_response e now)) [
      | inr (resp, same) ↦ rw (prepare_found_replay now key s e resp same) (h.no_error key e found)
      | inl stale ↦ elim (Bool-cases e.ready) [
        | inr busy ↦
            let mine = h.runs key e found busy in
            rw (prepare_found_wait now key s e stale busy)
              (mine, rw (← same_closed) (h.open_channel key e.id mine))
        | inl done ↦ rw (prepare_found_stale now key s e stale done) (
            start_entry-Allowed now key t _ same_next same_closed
              (λ id p. rw (← same_closed) (h.unused id (omega arith)))
              (idle_of_ready key s t.running h (λ x p. ground arith)))
      ]
    ]

prepare_entry-Allowed :
    (now : ℕ) (key : String) (t : Threads) → Inv t → Allowed key t (prepare_entry now key t.store).1
prepare_entry-Allowed now key t h = elim (Option-cases (lookup key (gc now t.store.entries))) [
  | inl missing ↦ rw (prepare_entry_missing now key t.store missing) (
      start_entry-Allowed now key t _ refl refl h.unused
        (idle_of_ready key _ t.running (gc-Inv now t.store t.running h) (λ x p. cc)))
  | inr (e, found) ↦
      rw (prepare_entry_found now key t.store e found)
        (prepare_found-Allowed now key t _ e refl refl (gc-Inv now t.store t.running h) found)
]

-- In every interleaving that starts from a new store, `prepareEntry` hands a key to a producer only
-- if no producer runs for it; it makes a goroutine wait only for the channel of a producer that
-- runs for that key, which is still open; and a replayed response comes without an error.
pub prepare_entry-Reach :
    (ttl max_keys : ℤ) (t : Threads) (now : ℕ) (key : String)
    → Reach (fresh ttl max_keys) t
    → Allowed key t (prepare_entry now key t.store).1
prepare_entry-Reach ttl max_keys t now key r =
    prepare_entry-Allowed now key t (Reach-Inv r (fresh-Inv ttl max_keys))
