-- ===== src/Stream/Engine/Entries.antt =====
-- The engine's calls keep its entries in order, and touch one key only.
use mathlib.Core.Path.{subst}
use cam_server.Base.{
  ap, ℕ, ◌+◌, ◌<◌, ◌≡◌, ◌≢◌, refl, ◌∙◌, Option, none, some, String, arith, Bool-cases, Option-cases,
  inl, inr, lookup, lookup-insert_self, lookup-insert, lookup-delete, Result, eq_iff,
}
use cam_server.Stream.Engine.{
  StreamKey, text_of, is_zero, StreamState, stopped, starting, Engine, EngineError, set_state,
  add_entry, drop_entry, running, patience, wait_for, rounds, finish_wait, Surroundings,
  start_stream, ensure_stream, stop_stream, state_of,
}
use cam_server.Stream.Fanout.{LiveStream}

-- Every entry has an address that was given out, and no two keys share one.
pub record IsEngine (e : Engine) : Type 0 where
  pub given : (k : String) (a : ℕ) → lookup k e.entries ≡ some a → a < e.next
  pub apart :
      (j k : String) (a : ℕ) → lookup j e.entries ≡ some a → lookup k e.entries ≡ some a → j ≡ k

-- An engine in order, of which `State` says the same for every other key.
abbrev pub Keeps : StreamKey → Engine → Engine → Type 0
Keeps key e e' =
    IsEngine e'
    × ((other : StreamKey) → text_of other ≢ text_of key → state_of other e' ≡ state_of other e)

Keeps-trans :
    (key : StreamKey) (e1 e2 e3 : Engine) → Keeps key e1 e2 → Keeps key e2 e3 → Keeps key e1 e3
Keeps-trans key e1 e2 e3 h k = (k.0, λ other apart. k.1 other apart ∙ h.1 other apart)

set_state-Keeps :
    (key : StreamKey) (a : ℕ) (s : StreamState) (e : Engine)
    → IsEngine e
    → lookup (text_of key) e.entries ≡ some a
    → Keeps key e (set_state a s e)
unfolding set_state state_of
set_state-Keeps key a s e h own = (
  record { given = h.given; apart = h.apart },
  λ other differs. elim (Option-cases (lookup (text_of other) e.entries)) [
    | inl f ↦ ground (arith, f)
    | inr (b, f) ↦
        let distinct : b ≢ a =
          λ same. differs (h.apart (text_of other) (text_of key) a (f ∙ ap some same) own) in
        ground (arith, f, distinct)
  ],
)

add_entry-Keeps :
    (now : ℕ) (id : String) (key : StreamKey) (e : Engine)
    → IsEngine e
    → Keeps key e (add_entry now id key e)
unfolding add_entry state_of
add_entry-Keeps now id key e h =
    let law = λ (k : String). lookup-insert (text_of key) k e.next e.entries in
    (
      record {
        given = λ k a there. ground (arith, there, law k, h.given k a);
        apart = λ j k a there there'. ground (
          arith,
          there,
          there',
          law j,
          law k,
          h.given k a,
          h.given j a,
          h.apart j k a,
          eq_iff (text_of key) j,
          eq_iff (text_of key) k,
        );
      },
      λ other differs. elim (Option-cases (lookup (text_of other) e.entries)) [
        | inl f ↦
            ground (arith, f, law (text_of other), eq_iff (text_of key) (text_of other), differs)
        | inr (b, f) ↦ ground (
          arith,
          f,
          law (text_of other),
          eq_iff (text_of key) (text_of other),
          differs,
          h.given (text_of other) b f,
        )
      ],
    )

drop_entry-Keeps : (key : StreamKey) (e : Engine) → IsEngine e → Keeps key e (drop_entry key e)
unfolding drop_entry state_of
drop_entry-Keeps key e h =
    let law = λ (k : String). lookup-delete (text_of key) k e.entries in
    (
      record {
        given = λ k a there. ground (arith, there, law k, h.given k a);
        apart = λ j k a there there'. ground (arith, there, there', law j, law k, h.apart j k a);
      },
      λ other differs.
          ground (arith, law (text_of other), eq_iff (text_of key) (text_of other), differs),
    )

entry_there :
    (now : ℕ) (id : String) (key : StreamKey) (s : StreamState) (e : Engine)
    → lookup (text_of key) (set_state e.next s (add_entry now id key e)).entries ≡ some e.next
unfolding set_state add_entry
entry_there now id key s e = lookup-insert_self (text_of key) e.next e.entries

-- The new entry in a state, and in another one after it.
started-Keeps :
    (now : ℕ) (id : String) (key : StreamKey) (s : StreamState) (e : Engine)
    → IsEngine e
    → Keeps key e (set_state e.next s (set_state e.next starting (add_entry now id key e)))
unfolding set_state
started-Keeps now id key s e h =
    let added = add_entry-Keeps now id key e h in
    let own = entry_there now id key starting e in
    let e1 = add_entry now id key e in
    let e2 = set_state e.next starting e1 in
    let first = set_state-Keeps key e.next starting e1 added.0 own in
    Keeps-trans key e e2 (set_state e.next s e2) (Keeps-trans key e e1 e2 added first)
      (set_state-Keeps key e.next s e2 first.0 own)

dropped-Keeps :
    (now : ℕ) (id : String) (key : StreamKey) (s : StreamState) (e : Engine)
    → IsEngine e
    → Keeps key e
        (drop_entry key (set_state e.next s (set_state e.next starting (add_entry now id key e))))
dropped-Keeps now id key s e h =
    let kept = started-Keeps now id key s e h in
    let e3 = set_state e.next s (set_state e.next starting (add_entry now id key e)) in
    Keeps-trans key e e3 (drop_entry key e3) kept (drop_entry-Keeps key e3 kept.0)

finish_wait-Keeps :
    (now : ℕ) (id : String) (key : StreamKey) (o : Option LiveStream) (e : Engine)
    → IsEngine e
    → Keeps key e (finish_wait e.next id o (set_state e.next starting (add_entry now id key e))).0
unfolding finish_wait
finish_wait-Keeps now id key none e h = started-Keeps now id key _ e h
finish_wait-Keeps now id key (some s) e h = started-Keeps now id key _ e h

-- What a call may return.
abbrev Kept :
    StreamKey → Engine → Option (Engine × Result EngineError (String × LiveStream)) → Type 0
Kept key e none = Unit
Kept key e (some r) = Keeps key e r.0

start_stream-Kept :
    (now : ℕ) (id : String) (key : StreamKey) (w : Surroundings) (e : Engine)
    → IsEngine e
    → Kept key e (start_stream now id key w e)
unfolding start_stream
start_stream-Kept now id key w e h = elim (Option-cases w.ingest) [
  | inl a ↦ rw (a, start_stream) (dropped-Keeps now id key stopped e h)
  | inr (some why, a) ↦ rw (a, start_stream) (dropped-Keeps now id key stopped e h)
  | inr (none, a) ↦ elim (Option-cases (wait_for w.clock w.seen rounds (w.begin + patience) 0)) [
    | inl b ↦ rw (a, b, start_stream) tt
    | inr (o, b) ↦ rw (a, b, start_stream) (finish_wait-Keeps now id key o e h)
  ]
]

ensure_stream-Kept :
    (now : ℕ) (id : String) (key : StreamKey) (w : Surroundings) (e : Engine)
    → IsEngine e
    → Kept key e (ensure_stream now id key w e)
unfolding ensure_stream
ensure_stream-Kept now id key w e h = elim (Bool-cases (is_zero key)) [
  | inl z ↦ rw (z, ensure_stream) (h, λ other differs. refl)
  | inr z ↦ elim (Option-cases (running key w.seen_fast e)) [
    | inr (r, a) ↦ rw (z, a, ensure_stream) (h, λ other differs. refl)
    | inl a ↦ elim (Option-cases (running key w.seen_locked e)) [
      | inr (r, b) ↦ rw (z, a, b, ensure_stream) (h, λ other differs. refl)
      | inl b ↦ rw (z, a, b, ensure_stream) (start_stream-Kept now id key w e h)
    ]
  ]
]

stop_stream-Keeps : (key : StreamKey) (e : Engine) → IsEngine e → Keeps key e (stop_stream key e).0
unfolding stop_stream set_state drop_entry
stop_stream-Keeps key e h = elim (Option-cases (lookup (text_of key) e.entries)) [
  | inl f ↦ rw (f, stop_stream) (h, λ other differs. refl)
  | inr (a, f) ↦
      let kept = set_state-Keeps key a stopped e h f in
      let e1 = set_state a stopped e in
      rw (f, stop_stream)
        (Keeps-trans key e e1 (drop_entry key e1) kept (drop_entry-Keeps key e1 kept.0))
]

-- In an engine whose entries have addresses of their own, `EnsureStream` and `StopStream`, on every branch,
-- keep them so, and what `State` says of every key with another text.
pub engine_calls-Keeps :
    (now : ℕ) (id : String) (key : StreamKey) (w : Surroundings) (e e' : Engine)
    (r : Result EngineError (String × LiveStream))
    → IsEngine e
    → ensure_stream now id key w e ≡ some (e', r)
    → Keeps key e e' × Keeps key e (stop_stream key e).0
engine_calls-Keeps now id key w e e' r h returned =
    (subst (Kept key e) returned (ensure_stream-Kept now id key w e h), stop_stream-Keeps key e h)
