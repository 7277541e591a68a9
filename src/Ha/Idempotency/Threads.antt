-- ===== src/Ha/Idempotency/Threads.antt =====
-- Goroutines in `IdempotencyStore.Do` on one store: the producers that run between a call of
-- `prepareEntry` and the call of `finalizeEntry` that ends it, in any interleaving.
use cam_server.Base.{
  ℕ, ◌≤◌, ◌<◌, ◌≡◌, refl, true, false, Option, none, some, String, [], ◌∷◌, arith, eq_iff, ℤ, GoMap,
  lookup, delete, Distinct, lookup-delete, lookup-delete_if, Distinct-delete, Distinct-delete_if,
}
use cam_server.Ha.Idempotency.Eviction.{enforce_max_keys-IsEvicted}
use cam_server.Ha.Idempotency.Store.{
  Store, Entry, CachedResponse, Outcome, replay, wait, produce, new, expired, gc, enforce_max_keys,
  prepare_entry, finalize_entry,
}

-- The store and, for each producer that runs, its key and the address of its entry.
pub record Threads : Type 0 where
  pub store : Store
  pub running : GoMap ℕ

-- What a goroutine goes on with after `prepareEntry`.
unfoldable pub after_prepare : String → GoMap ℕ → Store × Outcome → Threads
after_prepare key running (s, replay resp err) = record { store = s; running = running }
after_prepare key running (s, wait id) = record { store = s; running = running }
after_prepare key running (s, produce id) = record { store = s; running = (key, id) ∷ running }

-- One critical section of one goroutine in `Do`. The producer's result is the environment's.
pub data Step : Threads → Threads → Type 0 where
  prepare :
      (t : Threads) (now : ℕ) (key : String)
      → Step t (after_prepare key t.running (prepare_entry now key t.store))
  finish :
      (t : Threads) (now : ℕ) (key : String) (id : ℕ) (resp : CachedResponse) (err : Option String)
      (s : Store)
      → lookup key t.running ≡ some id
      → finalize_entry now key id resp err t.store ≡ some s
      → Step t (record { store = s; running = delete key t.running })

pub data Reach (t : Threads) : Threads → Type 0 where
  here : Reach t t
  next : {u v : Threads} → Reach t u → Step u v → Reach t v

-- What holds between two critical sections.
pub record Inv (t : Threads) : Type 0 where
  pub distinct_entries : Distinct t.store.entries
  pub distinct_running : Distinct t.running
  pub owned :
      (k : String) (id : ℕ)
      → lookup k t.running ≡ some id
      → (e : Entry) × (lookup k t.store.entries ≡ some e) × (e.ready ≡ false) × (e.id ≡ id)
  pub runs :
      (k : String) (e : Entry)
      → lookup k t.store.entries ≡ some e
      → e.ready ≡ false
      → lookup k t.running ≡ some e.id
  pub own_entry :
      (k j : String) (id : ℕ) → lookup k t.running ≡ some id → lookup j t.running ≡ some id → k ≡ j
  pub allocated : (k : String) (id : ℕ) → lookup k t.running ≡ some id → id < t.store.next_id
  pub open_channel :
      (k : String) (id : ℕ) → lookup k t.running ≡ some id → t.store.closed id ≡ false
  pub unused : (id : ℕ) → t.store.next_id ≤ id → t.store.closed id ≡ false
  pub no_error : (k : String) (e : Entry) → lookup k t.store.entries ≡ some e → e.err ≡ none

-- A new store with no goroutine in it.
abbrev pub fresh : ℤ → ℤ → Threads
fresh ttl max_keys = record { store = new ttl max_keys; running = [] }

pub fresh-Inv : (ttl max_keys : ℤ) → Inv (fresh ttl max_keys)
unfolding new lookup
fresh-Inv ttl max_keys = record {
  distinct_entries = tt;
  distinct_running = tt;
  owned = λ k id h. cc;
  runs = λ k e h r. cc;
  own_entry = λ k j id h g. cc;
  allocated = λ k id h. cc;
  open_channel = λ k id h. cc;
  unused = λ id h. refl;
  no_error = λ k e h. cc;
}

-- Finished entries may go; everything else about the map stays.
shrink-Inv :
    (s : Store) (running : GoMap ℕ) (m : GoMap Entry)
    → Inv (record { store = s; running = running })
    → Distinct m
    → ((k : String) (e : Entry) → lookup k m ≡ some e → lookup k s.entries ≡ some e)
    → ((k : String) (e : Entry)
        → lookup k s.entries ≡ some e
        → e.ready ≡ false
        → lookup k m ≡ some e)
    → Inv (record { store = record s { entries = m }; running = running })
shrink-Inv s running m h d part keep = record {
  distinct_entries = d;
  distinct_running = h.distinct_running;
  owned =
      λ k id p. let (e, found, busy, same) = h.owned k id p in (e, keep k e found busy, busy, same);
  runs = λ k e p r. h.runs k e (part k e p) r;
  own_entry = h.own_entry;
  allocated = h.allocated;
  open_channel = h.open_channel;
  unused = h.unused;
  no_error = λ k e p. h.no_error k e (part k e p);
}

pub gc-Inv :
    (now : ℕ) (s : Store) (running : GoMap ℕ)
    → Inv (record { store = s; running = running })
    → Inv (record { store = record s { entries = gc now s.entries }; running = running })
unfolding gc
gc-Inv now s running h =
    shrink-Inv s running _ h (Distinct-delete_if (expired now) s.entries h.distinct_entries)
      (λ k e p. ground (arith, lookup-delete_if (expired now) k s.entries h.distinct_entries))
      (λ k e p r. ground (arith, lookup-delete_if (expired now) k s.entries h.distinct_entries))

pub evict-Inv :
    (s : Store) (running : GoMap ℕ)
    → Inv (record { store = s; running = running })
    → Inv (record {
      store = record s { entries = enforce_max_keys s.max_keys s.entries };
      running = running;
    })
evict-Inv s running h =
    let e = enforce_max_keys-IsEvicted s.max_keys s.entries h.distinct_entries in
    shrink-Inv s running _ h e.distinct e.kept_value e.unfinished_kept

pub delete-Inv :
    (key : String) (old : Entry) (s : Store) (running : GoMap ℕ)
    → Inv (record { store = s; running = running })
    → lookup key s.entries ≡ some old
    → old.ready ≡ true
    → Inv (record { store = record s { entries = delete key s.entries }; running = running })
delete-Inv key old s running h found ready =
    shrink-Inv s running _ h (Distinct-delete key s.entries h.distinct_entries)
      (λ k e p. ground (arith, lookup-delete key k s.entries))
      (λ k e p r. ground (arith, lookup-delete key k s.entries, eq_iff key k))
