-- ===== src/Stream/Fanout/Pumped.antt =====
-- What a round of the pump leaves of a stream and its subscribers: internal/stream/fanout.go.
use mathlib.Core.Path.{subst}
use cam_server.Base.{
  ℕ, ◌+◌, ◌%◌, ◌<◌, ◌≤◌, ◌≡◌, ◌⊎◌, refl, sym, Bool, true, false, List, [], ◌∷◌, ◌++◌, String, ltb,
  length, List-cases, Bool-cases, inl, inr, GoMap, arith, if◌then◌else◌,
}
use cam_server.Stream.Fanout.{LiveStream, fan_out, pump}
use cam_server.Stream.Packet.{AvPacket}
use cam_server.Stream.Pool.{Pool, retain, release}
use cam_server.Subscriber.Defs.{Subscriber, live, buffered, deliver, bump, gop_cache_max}
use cam_server.Subscriber.Gop.{last, starts_group, update_gop-last}

module _ (info : ℕ → AvPacket) (sent : String → ℕ → Bool) where
  -- What a delivery leaves of a subscriber. A viewer's cache has the last 256 packets of its group, the
  -- new one included; a channel has the new packet behind the others if there was room, and otherwise
  -- counts it as dropped.
  abbrev pub Took : Bool → ℕ → Subscriber → Subscriber → Type 0
  Took done p (live l) (live l') =
      (l'.gop ≡ last gop_cache_max ((if starts_group info p then [] else l.gop) ++ p ∷ []))
      × (l'.live_dropped ≡ (if done then l.live_dropped else bump l.live_dropped))
  Took done p (buffered b) (buffered b') =
      ((length b.queue < b.capacity) × (b' ≡ record b { queue = b.queue ++ p ∷ [] }))
      ⊎ ((b.capacity ≤ length b.queue) × (b' ≡ record b { dropped = bump b.dropped }))
  Took done p (live l) (buffered b) = ⊥
  Took done p (buffered b) (live l) = ⊥

  -- Every subscriber has had the packet, under the identifier that it had.
  abbrev pub Handed : ℕ → GoMap Subscriber → GoMap Subscriber → Type 0
  Handed p [] [] = Unit
  Handed p ((id, sub) ∷ subs) ((id', sub') ∷ subs') =
      (id' ≡ id) × Took (sent id p) p sub sub' × Handed p subs subs'
  Handed p [] ((id, sub) ∷ subs) = ⊥
  Handed p ((id, sub) ∷ subs) [] = ⊥

  deliver-Took :
      (done : Bool) (p : ℕ) (sub : Subscriber) (pool : Pool)
      → Took done p sub (deliver info done p sub pool).0
  unfolding deliver
  deliver-Took done p (live l) pool = (update_gop-last info p l.gop pool, refl)
  deliver-Took done p (buffered b) pool = elim (Bool-cases (ltb (length b.queue) b.capacity)) [
    | inl e ↦ rw (e, deliver) (inl (ground (arith, e), refl))
    | inr e ↦ rw (e, deliver) (inr (ground (arith, e), refl))
  ]

  fan_out-Handed :
      (p : ℕ) (subs : GoMap Subscriber) (pool : Pool)
      → Handed p subs (fan_out info sent p subs pool).0
  unfolding fan_out
  fan_out-Handed p [] pool = tt
  fan_out-Handed p ((id, sub) ∷ subs) pool = (
    refl,
    deliver-Took (sent id p) p sub (retain p pool),
    fan_out-Handed p subs (deliver info (sent id p) p sub (retain p pool)).1,
  )

  -- What one round of the pump does to a stream: nothing where it is closed or no packet waits, and
  -- otherwise it takes the first packet that waits, counts it and hands it to every subscriber.
  abbrev pub Pumped : LiveStream → Pool → LiveStream → Pool → Type 0
  Pumped s pool s' pool' =
      (((s.closed ≡ true) ⊎ (s.ingest ≡ [])) × (s' ≡ s) × (pool' ≡ pool))
      ⊎ ((p : ℕ) × (rest : List ℕ) × (s.closed ≡ false)
          × (s.ingest ≡ p ∷ rest)
          × (s'.ingest ≡ rest)
          × (s'.packets_total ≡ (s.packets_total + 1) % 18446744073709551616)
          × (s'.closed ≡ false)
          × Handed p s.subs s'.subs)

  pump_still :
      (s : LiveStream) (pool : Pool)
      → (s.closed ≡ true) ⊎ (s.ingest ≡ [])
      → pump info sent s pool ≡ (s, pool)
  unfolding pump
  pump_still s pool (inr e) = ground (arith, e)
  pump_still s pool (inl e) = elim (List-cases s.ingest) [
    | inl f ↦ ground (arith, f)
    | inr (p, rest, f) ↦ ground (arith, e, f)
  ]

  -- The round of an open stream where `p` is the first packet that waits.
  abbrev round : ℕ → List ℕ → LiveStream → Pool → LiveStream × Pool
  round p rest s pool =
      let (subs', pool') = fan_out info sent p s.subs pool in
      (
        record s {
          subs = subs';
          ingest = rest;
          packets_total = (s.packets_total + 1) % 18446744073709551616;
        },
        release p pool',
      )

  pump-round :
      (p : ℕ) (rest : List ℕ) (s : LiveStream) (pool : Pool)
      → s.closed ≡ false
      → s.ingest ≡ p ∷ rest
      → pump info sent s pool ≡ round p rest s pool
  unfolding pump
  pump-round p rest s pool is_open waiting = ground (arith, is_open, waiting)

  pub pump-Pumped :
      (s : LiveStream) (pool : Pool)
      → Pumped s pool (pump info sent s pool).0 (pump info sent s pool).1
  pump-Pumped s pool =
      let still = λ (why : (s.closed ≡ true) ⊎ (s.ingest ≡ [])).
        subst (λ r. Pumped s pool r.0 r.1) (sym (pump_still s pool why)) (inl (why, refl, refl)) in
      elim (List-cases s.ingest) [
        | inl e ↦ still (inr e)
        | inr (p, rest, e) ↦ elim (Bool-cases s.closed) [
          | inl f ↦ still (inl f)
          | inr f ↦
              subst (λ r. Pumped s pool r.0 r.1) (sym (pump-round p rest s pool f e))
                (inr (p, rest, f, e, refl, refl, f, fan_out-Handed p s.subs pool))
        ]
      ]
