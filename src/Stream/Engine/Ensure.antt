-- ===== src/Stream/Engine/Ensure.antt =====
-- What `EnsureStream` returns, and what it leaves in the engine.
use cam_server.Base.{
  ℕ, suc, ◌+◌, ◌≤◌, ◌<◌, ◌≡◌, ◌≢◌, refl, sym, ◌∙◌, true, false, Option, none, some, String, arith,
  Option-cases, inl, inr, lookup-insert_self, lookup-delete_self, Result, ok, err,
}
use cam_server.Stream.Engine.{
  StreamKey, text_of, is_zero, StreamState, live, stopped, starting, Engine, EngineError, no_ingest,
  start_failed, timed_out, set_state, add_entry, drop_entry, running, patience, wait_for, rounds,
  finish_wait, Surroundings, start_stream, ensure_stream, state_of,
}
use cam_server.Stream.Engine.Waiting.{Ticks, Ends, wait_for-Ends, Ends-in_time}
use cam_server.Stream.Fanout.{LiveStream}

-- The clock of a call: it does not run backwards, and each pause passes.
abbrev pub Runs : Surroundings → Type 0
Runs w = (w.begin ≤ w.clock 0) × Ticks w.clock

waits :
    (w : Surroundings)
    → Runs w
    → (o : Option LiveStream) × (wait_for w.clock w.seen rounds (w.begin + patience) 0 ≡ some o)
      × Ends w.clock w.seen (w.begin + patience) 0 o
waits w runs =
    wait_for-Ends w.clock w.seen 100 (w.begin + patience) 0 runs.1 (omega (arith, runs.0))

-- Every call of `EnsureStream` returns: its loop has at most 101 rounds, since 50 ms pass in each and it
-- stops 5 s after it began.
pub ensure_stream-returns :
    (now : ℕ) (id : String) (key : StreamKey) (w : Surroundings) (e : Engine)
    → Runs w
    → (r : Engine × Result EngineError (String × LiveStream)) × (ensure_stream now id key w e
        ≡ some r)
unfolding ensure_stream start_stream
ensure_stream-returns now id key w e runs =
    let (o, ended, ends) = waits w runs in
    elim (Option-cases (ensure_stream now id key w e)) [
      | inl none_left ↦ absurd (ground (arith, ended))
      | inr (r, returned) ↦ (r, returned)
    ]

-- What `State` says of a key whose entry was just made and then given a state.
state_of-set :
    (now : ℕ) (id : String) (key : StreamKey) (s : StreamState) (e : Engine)
    → state_of key (set_state e.next s (set_state e.next starting (add_entry now id key e)))
      ≡ (s, id, true)
unfolding state_of set_state add_entry
state_of-set now id key s e = ground (arith, lookup-insert_self (text_of key) e.next e.entries)

state_of-dropped :
    (key : StreamKey) (e : Engine) → state_of key (drop_entry key e) ≡ (stopped, "", false)
unfolding state_of drop_entry
state_of-dropped key e = ground (arith, lookup-delete_self (text_of key) e.entries)

-- No stream runs under the key at the two looks that a call begins with.
abbrev pub Dead : StreamKey → Surroundings → Engine → Type 0
Dead key w e = (running key w.seen_fast e ≡ none) × (running key w.seen_locked e ≡ none)

ensure_stream-start :
    (now : ℕ) (id : String) (key : StreamKey) (w : Surroundings) (e : Engine)
    → is_zero key ≡ false
    → Dead key w e
    → ensure_stream now id key w e ≡ start_stream now id key w e
unfolding ensure_stream
ensure_stream-start now id key w e nonzero dead = ground (arith, nonzero, dead.0, dead.1)

start_stream-wait :
    (now : ℕ) (id : String) (key : StreamKey) (w : Surroundings) (e : Engine)
    (o : Option LiveStream)
    → w.ingest ≡ some none
    → wait_for w.clock w.seen rounds (w.begin + patience) 0 ≡ some o
    → start_stream now id key w e
      ≡ some (finish_wait e.next id o (set_state e.next starting (add_entry now id key e)))
unfolding start_stream
start_stream-wait now id key w e o started ended = ground (arith, started, ended)

-- Where an entry stands, a call that finds a stream changes nothing.
ensure_stream-running :
    (now : ℕ) (id id' : String) (key : StreamKey) (w : Surroundings) (e : Engine) (st : StreamState)
    (s : LiveStream)
    → is_zero key ≡ false
    → state_of key e ≡ (st, id', true)
    → w.seen_fast ≡ some s
    → ensure_stream now id key w e ≡ some (e, ok (id', s))
unfolding ensure_stream running state_of
ensure_stream-running now id id' key w e st s nonzero there seen =
    ground (arith, nonzero, there, seen)

-- Where no stream runs under a proper key and the ingest starts, a stream that is registered in a round
-- before the deadline makes the call succeed, under its new identifier; the state is then "live", and a
-- later call while there is a stream returns the same identifier and changes nothing.
pub ensure_stream-live :
    (now later : ℕ) (id id' : String) (key : StreamKey) (w w' : Surroundings) (e : Engine) (k : ℕ)
    (s' : LiveStream)
    → is_zero key ≡ false
    → Dead key w e
    → Runs w
    → w.ingest ≡ some none
    → w.clock k < w.begin + patience
    → w.seen k ≢ none
    → w'.seen_fast ≡ some s'
    → (e' : Engine) × (s : LiveStream) × (ensure_stream now id key w e ≡ some (e', ok (id, s)))
      × (state_of key e' ≡ (live, id, true))
      × (ensure_stream later id' key w' e' ≡ some (e', ok (id, s')))
unfolding finish_wait
ensure_stream-live now later id id' key w w' e k s' nonzero dead runs started early there again =
    let (o, ended, ends) = waits w runs in
    let (s, found) =
      Ends-in_time w.clock w.seen (w.begin + patience) 0 k o runs.1 ends (omega arith) early
        there in
    let e' = set_state e.next live (set_state e.next starting (add_entry now id key e)) in
    let is_live = state_of-set now id key live e in
    (
      e',
      s,
      ensure_stream-start now id key w e nonzero dead
          ∙ start_stream-wait now id key w e (some s) started (rw (sym found) ended),
      is_live,
      ensure_stream-running later id' id key w' e' live s' nonzero is_live again,
    )

unseen-late :
    (w : Surroundings) (o : Option LiveStream) (i : ℕ)
    → ((k : ℕ) → w.clock k < w.begin + patience → w.seen k ≡ none)
    → Ends w.clock w.seen (w.begin + patience) i o
    → o ≡ none
unseen-late w none i never ends = refl
unseen-late w (some s) i never (Ends.sees early there) = ground (arith, never i, early, there)
unseen-late w (some s) i never (Ends.later early unseen ends) =
    unseen-late w (some s) (suc i) never ends

-- The same call without an ingest, with an ingest that does not start, and with one that starts.
abbrev pub alone : Surroundings → Surroundings
alone w = record w { ingest = none }

abbrev pub refused : String → Surroundings → Surroundings
refused why w = record w { ingest = some (some why) }

abbrev pub started : Surroundings → Surroundings
started w = record w { ingest = some none }

-- Where no stream runs under a proper key, a call without an ingest, or with one that does not start,
-- fails for that reason and leaves no entry, whatever would be seen later; a call with an ingest that
-- starts, which sees no stream before its deadline, times out and leaves an entry in the state "stopped".
pub ensure_stream-fails :
    (now : ℕ) (id why : String) (key : StreamKey) (w silent : Surroundings) (e : Engine)
    → is_zero key ≡ false
    → Dead key w e
    → Dead key silent e
    → Runs silent
    → ((k : ℕ) → silent.clock k < silent.begin + patience → silent.seen k ≡ none)
    → ((e' : Engine) × (ensure_stream now id key (alone w) e ≡ some (e', err no_ingest))
        × (state_of key e' ≡ (stopped, "", false)))
      × ((e' : Engine) × (ensure_stream now id key (refused why w) e
            ≡ some (e', err (start_failed why)))
          × (state_of key e' ≡ (stopped, "", false)))
      × ((e' : Engine) × (ensure_stream now id key (started silent) e ≡ some (e', err timed_out))
          × (state_of key e' ≡ (stopped, id, true)))
unfolding start_stream finish_wait
ensure_stream-fails now id why key w silent e nonzero dead dead' runs never =
    let e1 = set_state e.next starting (add_entry now id key e) in
    let e2 = set_state e.next stopped e1 in
    let (o, ended, ends) = waits silent runs in
    (
      (
        drop_entry key e2,
        ensure_stream-start now id key (alone w) e nonzero dead,
        state_of-dropped key e2,
      ),
      (
        drop_entry key e2,
        ensure_stream-start now id key (refused why w) e nonzero dead,
        state_of-dropped key e2,
      ),
      (
        e2,
        ensure_stream-start now id key (started silent) e nonzero dead'
            ∙ start_stream-wait now id key (started silent) e none refl
                (rw (sym (unseen-late silent o 0 never ends)) ended),
        state_of-set now id key stopped e,
      ),
    )
