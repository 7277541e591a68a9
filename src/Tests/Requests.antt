-- ===== src/Tests/Requests.antt =====
-- Runs of internal/ha/idempotency.go: one key, a producer that runs, and one that has ended.
use cam_server.Base.{
  ℕ, ◌≡◌, refl, true, false, Option, none, some, String, [], ◌∷◌, pos, GoMap, lookup, delete_if,
  Distinct,
}
use cam_server.Ha.Idempotency.Answers.{Allowed, prepare_entry-Reach, finalize_entry-Reach}
use cam_server.Ha.Idempotency.Eviction.{IsEvicted, enforce_max_keys-IsEvicted}
use cam_server.Ha.Idempotency.Replay.{replay_after_success}
use cam_server.Ha.Idempotency.Safety.{finished}
use cam_server.Ha.Idempotency.Store.{
  Store, Entry, CachedResponse, replay, new, no_response, gc, start_entry, enforce_max_keys,
  prepare_entry, finalize_entry,
}
use cam_server.Ha.Idempotency.Threads.{Threads, Reach, here, next, prepare, after_prepare, fresh}

abbrev created : CachedResponse
created = record { status_code = 201; content_type = "application/json"; body = 123 ∷ 125 ∷ [] }

-- The store after one request for the key "k" at the time 5.
abbrev first : Threads
first = after_prepare "k" [] (prepare_entry 5 "k" (new (pos 100) (pos 2)))

first-Reach : Reach (fresh (pos 100) (pos 2)) first
first-Reach = next here (prepare (fresh (pos 100) (pos 2)) 5 "k")

first-running : lookup "k" first.running ≡ some 0
unfolding after_prepare prepare_entry new gc start_entry lookup delete_if
first-running = refl

prepare_entry-Reach_example : Allowed "k" first (prepare_entry 7 "k" first.store).1
prepare_entry-Reach_example = prepare_entry-Reach (pos 100) (pos 2) first 7 "k" first-Reach

finalize_entry-Reach_example :
    (e : Entry) × (lookup "k" first.store.entries ≡ some e)
    × (e.id ≡ 0)
    × (first.store.closed 0 ≡ false)
    × (finalize_entry 9 "k" 0 created none first.store
        ≡ some (finished 9 "k" e created none first.store))
finalize_entry-Reach_example =
    finalize_entry-Reach (pos 100) (pos 2) first 9 "k" 0 created none first-Reach first-running

-- An entry that waits for its producer, and two finished ones.
abbrev waiting : Entry
waiting = record {
  id = 3;
  created_at = 1;
  expires_at = 90;
  ready = false;
  response = no_response;
  err = none;
}

abbrev settled : ℕ → Entry
settled at = record waiting { created_at = at; ready = true; response = created }

abbrev three_keys : GoMap Entry
three_keys = ("a", waiting) ∷ ("b", settled 4) ∷ ("c", settled 2) ∷ []

three_keys-Distinct : Distinct three_keys
unfolding lookup
three_keys-Distinct = (refl, (refl, (refl, tt)))

enforce_max_keys-IsEvicted_example : IsEvicted 1 three_keys (enforce_max_keys 1 three_keys)
enforce_max_keys-IsEvicted_example = enforce_max_keys-IsEvicted 1 three_keys three_keys-Distinct

-- A store in which the producer of the key "k" runs.
abbrev busy : Store
busy = record {
  ttl = 100;
  max_keys = 8;
  entries = ("k", waiting) ∷ [];
  next_id = 4;
  closed = λ id. false;
}

busy-Distinct : Distinct busy.entries
unfolding lookup
busy-Distinct = (refl, tt)

busy-found : lookup "k" busy.entries ≡ some waiting
unfolding lookup
busy-found = refl

-- The stores after the producer ended, without and with an error.
abbrev ended : Option String → Store
ended failure = finished 10 "k" waiting created failure busy

succeeded : finalize_entry 10 "k" 3 created none busy ≡ some (ended none)
unfolding finalize_entry finished lookup
succeeded = refl

failed : finalize_entry 10 "k" 3 created (some "down") busy ≡ some (ended (some "down"))
unfolding finalize_entry finished lookup
failed = refl

replay_after_success_example : (prepare_entry 50 "k" (ended none)).1 ≡ replay created none
replay_after_success_example =
    replay_after_success 10 50 "k" 3 created waiting busy (ended none) busy-Distinct busy-found refl
      succeeded
