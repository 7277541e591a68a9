-- ===== src/Stream/Fanout/Balance.antt =====
-- The reference count of every packet is the number of places that hold it.
use mathlib.Core.Path.{subst}
use cam_server.Base.{
  ℕ, ◌+◌, ◌%◌, ◌<◌, ◌≡◌, ◌⊎◌, refl, sym, Bool, true, false, some, [], ◌∷◌, String, ltb, length,
  Bool-cases, inl, inr, GoMap, lookup, delete, Distinct, delete_absent, arith, eq_iff,
  if◌then◌else◌,
}
use cam_server.Stream.Fanout.{
  LiveStream, ingest_buf_size, ingest_packet, remove_subscriber, close_all, close,
}
use cam_server.Stream.Fanout.Pumped.{Pumped}
use cam_server.Stream.Pool.{Pool, modulus, acquire, count, one}
use cam_server.Subscriber.Defs
use cam_server.Subscriber.Defs.{Subscriber, live, buffered, held, bump, gop_cache_max}
use cam_server.Subscriber.References.{count-append, count-single, drains, close-drains}

-- How often the subscribers hold a packet.
abbrev pub held_by : ℕ → GoMap Subscriber → ℕ
held_by q [] = 0
held_by q ((id, sub) ∷ subs) = count q (held sub) + held_by q subs

-- How often the stream holds a packet: in the buffer of its pump, and in its subscribers.
abbrev pub holders : ℕ → LiveStream → ℕ
holders q s = count q s.ingest + held_by q s.subs

-- Every count is the number of holders, modulo 2^32; `extra` references are held elsewhere.
abbrev pub IsBalanced : (ℕ → ℕ) → LiveStream → Pool → Type 0
IsBalanced extra s pool = (q : ℕ) → pool.refs q % modulus ≡ (holders q s + extra q) % modulus

-- Whether `Ingest` takes a packet.
abbrev pub accepts : LiveStream → Bool
accepts s = if s.closed then false else ltb (length s.ingest) ingest_buf_size

-- A packet that comes from the pool, which nothing holds, and is given to `Ingest`: the counts stay
-- right if the stream takes it; otherwise it has one reference that no one holds.
ingest_packet-IsBalanced :
    (p : ℕ) (s : LiveStream) (pool : Pool)
    → IsBalanced (λ q. 0) s pool
    → holders p s ≡ 0
    → let r = ingest_packet p s (acquire p pool) in
      IsBalanced (λ q. if accepts s then 0 else one q p) r.0 r.1
unfolding ingest_packet acquire
ingest_packet-IsBalanced p s pool h unheld q =
    ground (arith, h q, count-append q s.ingest (p ∷ []), count-single q p)

held_by-delete :
    (q : ℕ) (id : String) (sub : Subscriber) (subs : GoMap Subscriber)
    → Distinct subs
    → lookup id subs ≡ some sub
    → held_by q (delete id subs) + count q (held sub) ≡ held_by q subs
unfolding lookup delete
held_by-delete q id sub [] d h = cc
held_by-delete q id sub ((j, x) ∷ subs) d h =
    ground (arith, eq_iff j id, delete_absent j subs, held_by-delete q id sub subs d.1)

-- `RemoveSubscriber` of a subscriber that is there and drains keeps the counts right, if no two
-- subscribers have one identifier.
pub remove_subscriber-IsBalanced :
    (extra : ℕ → ℕ) (id : String) (sub : Subscriber) (s : LiveStream) (pool : Pool)
    → Distinct s.subs
    → lookup id s.subs ≡ some sub
    → drains sub ≡ true
    → IsBalanced extra s pool
    → IsBalanced extra (remove_subscriber id s pool).0 (remove_subscriber id s pool).1
unfolding remove_subscriber
remove_subscriber-IsBalanced extra id sub s pool d found dr h q =
    rw (found, remove_subscriber)
      (omega (arith, h q, held_by-delete q id sub s.subs d found, close-drains sub pool q dr))

abbrev pub AllDrain : GoMap Subscriber → Type 0
AllDrain [] = Unit
AllDrain ((id, sub) ∷ subs) = (drains sub ≡ true) × AllDrain subs

close_all-refs :
    (subs : GoMap Subscriber) (pool : Pool) (q : ℕ)
    → AllDrain subs
    → ((close_all subs pool).refs q + held_by q subs) % modulus ≡ pool.refs q % modulus
unfolding close_all
close_all-refs [] pool q all = omega arith
close_all-refs ((id, sub) ∷ subs) pool q (dr, all) =
    omega (arith, close-drains sub pool q dr, close_all-refs subs (Defs.close sub pool).1 q all)

-- What `Close` does: nothing to a closed stream; an open one is then closed, has no subscribers and
-- has given up exactly the references that they held, and what waits for the pump waits on.
abbrev pub Closed : LiveStream → Pool → LiveStream → Pool → Type 0
Closed s pool s' pool' =
    ((s.closed ≡ true) × (s' ≡ s) × (pool' ≡ pool))
    ⊎ ((s.closed ≡ false)
        × (s'.closed ≡ true)
        × (s'.subs ≡ [])
        × (s'.ingest ≡ s.ingest)
        × ((q : ℕ) → (pool'.refs q + held_by q s.subs) % modulus ≡ pool.refs q % modulus))

close-Closed :
    (s : LiveStream) (pool : Pool)
    → AllDrain s.subs
    → Closed s pool (close s pool).0 (close s pool).1
unfolding close
close-Closed s pool all = elim (Bool-cases s.closed) [
  | inl e ↦
      let same : close s pool ≡ (s, pool) = ground (arith, e) in
      subst (λ r. Closed s pool r.0 r.1) (sym same) (inl (e, refl, refl))
  | inr e ↦
      let same : close s pool ≡ (record s { closed = true; subs = [] }, close_all s.subs pool) =
        ground (arith, e) in
      subst (λ r. Closed s pool r.0 r.1) (sym same)
        (inr (e, refl, refl, refl, λ q. close_all-refs s.subs pool q all))
]

-- `Close` of an open stream whose subscribers all drain closes it, leaves no subscriber, and gives up
-- exactly the references of the subscribers; the packets that still wait for the pump stay, with their
-- references. `Close` of a closed stream does nothing. Where every count was the number of
-- holders, modulo 2^32, so it is then.
pub close-IsBalanced :
    (extra : ℕ → ℕ) (s : LiveStream) (pool : Pool)
    → AllDrain s.subs
    → IsBalanced extra s pool
    → Closed s pool (close s pool).0 (close s pool).1
      × IsBalanced extra (close s pool).0 (close s pool).1
unfolding close
close-IsBalanced extra s pool all h =
    (close-Closed s pool all, λ q. ground (arith, h q, close_all-refs s.subs pool q all))

-- Where the counts are right and nothing else holds the packet, its count is 0 only if the stream
-- does not hold it, as long as there are fewer than 2^32 holders.
pub unheld_of_zero :
    (s : LiveStream) (pool : Pool) (p : ℕ)
    → IsBalanced (λ q. 0) s pool
    → holders p s < modulus
    → pool.refs p ≡ 0
    → holders p s ≡ 0
unheld_of_zero s pool p h few zero_refs = omega (arith, h p)
