-- ===== src/Ha/Idempotency/Store.antt =====
-- The store of internal/ha/idempotency.go and its operations. A time is a number of nanoseconds.
use cam_server.Base.{
  ℕ, zero, suc, ◌+◌, Bool, true, false, not, ◌&&◌, Option, none, some, String, [], ◌∷◌, ltb, leb,
  ◌==◌, length, if◌then◌else◌, ℤ, positive_or, GoMap, lookup, insert, delete, delete_if,
}
use cam_server.Stream.Packet.{Bytes}

pub record CachedResponse : Type 0 where
  pub status_code : ℕ
  pub content_type : String
  pub body : Bytes

-- `idempotencyEntry`. Entries are compared by their address, which `id` stands for; it also names
-- the entry's `done` channel.
pub record Entry : Type 0 where
  pub id : ℕ
  pub created_at : ℕ
  pub expires_at : ℕ
  pub ready : Bool
  pub response : CachedResponse
  pub err : Option String

-- `IdempotencyStore`, with the next address that an allocation returns and the `done` channels
-- that are closed.
pub record Store : Type 0 where
  pub ttl : ℕ
  pub max_keys : ℕ
  pub entries : GoMap Entry
  pub next_id : ℕ
  pub closed : ℕ → Bool

-- `NewIdempotencyStore`; three minutes are 180000000000 ns.
unfoldable pub new : ℤ → ℤ → Store
new ttl max_keys = record {
  ttl = positive_or ttl 180000000000;
  max_keys = positive_or max_keys 20000;
  entries = [];
  next_id = 0;
  closed = λ _. false;
}

abbrev pub no_response : CachedResponse
no_response = record { status_code = 0; content_type = ""; body = [] }

-- `entry.ready && !now.Before(entry.expiresAt)`
abbrev pub expired : ℕ → Entry → Bool
expired now entry = entry.ready && not (ltb now entry.expires_at)

-- `gcLocked`
unfoldable pub gc : ℕ → GoMap Entry → GoMap Entry
gc now entries = delete_if (expired now) entries

-- `replayResponse`
unfoldable pub replay_response : Entry → ℕ → Option CachedResponse
replay_response entry now =
    if not entry.ready
    then none
    else if not (ltb now entry.expires_at)
    then none
    else some entry.response

-- The test of the loop in `enforceMaxKeysLocked` on one entry, and what becomes of the victim.
unfoldable pub older : String → Entry → Option (String × Entry) → Option (String × Entry)
older k entry none = if entry.ready then some (k, entry) else none
older k entry (some (j, victim)) =
    if not entry.ready
    then some (j, victim)
    else if ltb entry.created_at victim.created_at
    then some (k, entry)
    else some (j, victim)

unfoldable pub pick_victim : GoMap Entry → Option (String × Entry) → Option (String × Entry)
unfolding older
pick_victim [] victim = victim
pick_victim ((k, entry) ∷ rest) victim = pick_victim rest (older k entry victim)

-- The outer loop of `enforceMaxKeysLocked`, with fuel for its rounds.
unfoldable pub evict : ℕ → ℕ → GoMap Entry → GoMap Entry
evict zero max_keys entries = entries
evict (suc fuel) max_keys entries = elim (leb (length entries) max_keys) [
  | true ↦ entries
  | false ↦ elim (pick_victim entries none) [
    | none ↦ entries
    | some (k, victim) ↦ evict fuel max_keys (delete k entries)
  ]
]

-- Each round deletes an entry, so there are no more rounds than entries.
unfoldable pub enforce_max_keys : ℕ → GoMap Entry → GoMap Entry
unfolding evict
enforce_max_keys max_keys entries = evict (length entries) max_keys entries

-- What `Do` gets from `prepareEntry`: a response to replay with the entry's error, a channel to wait for, or a new entry whose
-- response the caller has to produce.
pub data Outcome : Type 0 where
  replay : CachedResponse → Option String → Outcome
  wait : ℕ → Outcome
  produce : ℕ → Outcome

-- The end of `prepareEntry`: a new entry under the key.
unfoldable pub start_entry : ℕ → String → Store → Store × Outcome
start_entry now key s =
    let entry : Entry = record {
      id = s.next_id;
      created_at = now;
      expires_at = now + s.ttl;
      ready = false;
      response = no_response;
      err = none;
    } in
    (
      record s {
        entries = enforce_max_keys s.max_keys (insert key entry s.entries);
        next_id = s.next_id + 1;
      },
      produce s.next_id,
    )

-- The branch of `prepareEntry` on an entry that the map holds.
unfoldable pub prepare_found : ℕ → String → Store → Entry → Store × Outcome
prepare_found now key s entry = elim (replay_response entry now) [
  | some response ↦ (s, replay response entry.err)
  | none ↦
      if entry.ready
      then start_entry now key (record s { entries = delete key s.entries })
      else (s, wait entry.id)
]

-- `prepareEntry`
unfoldable pub prepare_entry : ℕ → String → Store → Store × Outcome
prepare_entry now key s =
    let s1 = record s { entries = gc now s.entries } in
    elim (lookup key s1.entries) [
      | some entry ↦ prepare_found now key s1 entry
      | none ↦ start_entry now key s1
    ]

-- `close(done)`, which panics on a closed channel
abbrev pub close : ℕ → Store → Option Store
close id s =
    if s.closed id
    then none
    else some (record s { closed = λ j. if j == id then true else s.closed j })

-- `finalizeEntry` for the entry with the address `id`, at the time `now`. An entry that leaves the
-- map is no longer read, but for its channel. The result `none` is a panic.
unfoldable pub finalize_entry :
    ℕ → String → ℕ → CachedResponse → Option String → Store → Option Store
finalize_entry now key id resp err s = elim (lookup key s.entries) [
  | none ↦ some s
  | some latest ↦
      if not (latest.id == id)
      then some s
      else close id (elim err [
        | some _ ↦ record s { entries = delete key s.entries }
        | none ↦
            let finished = record latest {
              ready = true;
              response = resp;
              expires_at = now + s.ttl;
              err = none;
            } in
            record s { entries = insert key finished s.entries }
      ])
]
