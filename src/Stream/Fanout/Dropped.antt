-- ===== src/Stream/Fanout/Dropped.antt =====
-- A packet that `Ingest` drops is lost to the pool: internal/stream/fanout.go.
use cam_server.Base.{
  ℕ, ◌+◌, ◌≡◌, ◌≤◌, ◌==◌, ◌≢◌, insert, refl, Bool, false, none, some, List, [], ◌∷◌, String,
  List-cases, Option-cases, Bool-cases, inl, inr, lookup, arith,
}
use cam_server.Stream.Fanout.{
  LiveStream, ingest_packet, fan_out, pump, add_subscriber, remove_subscriber, close,
}
use cam_server.Stream.Fanout.Balance.{holders, accepts}
use cam_server.Stream.Fanout.Leak.{
  Same, Same-release, Same-release_all, Same-fan_out, Same-finish, Same-close_all,
  held_by-delete_le, held_by-found,
}
use cam_server.Stream.Packet.{AvPacket}
use cam_server.Stream.Pool.{Pool, take_out, acquire, count, one}
use cam_server.Subscriber.Defs.{Subscriber, Buffered, live, buffered, held, consume, finish_run}
use cam_server.Subscriber.References.{count-append, count-single, count-cons}

-- What happens to a stream and the pool: a round of the pump, for what the callbacks of the
-- viewers return, a subscriber that comes or goes, the goroutine of a subscriber that writes a packet or
-- ends, a packet from the pool, one that is given to
-- `Ingest`, and `Close`.
pub data StreamCall : Type 0 where
  pumped : (String → ℕ → Bool) → StreamCall
  added : String → Subscriber → StreamCall
  removed consumed finished : String → StreamCall
  acquired : ℕ → StreamCall
  ingested : ℕ → StreamCall
  ended : StreamCall

-- The call brings no reference to `p`: a packet that it names is another one, since `p` is neither in
-- the pool nor new, and a subscriber that it adds does not hold `p`.
abbrev pub IsApart : ℕ → StreamCall → Type 0
IsApart p (pumped sent) = Unit
IsApart p (added id sub) = count p (held sub) ≡ 0
IsApart p (removed id) = Unit
IsApart p (consumed id) = Unit
IsApart p (finished id) = Unit
IsApart p (acquired q) = q ≢ p
IsApart p (ingested q) = q ≢ p
IsApart p ended = Unit

abbrev pub AllApart : ℕ → List StreamCall → Type 0
AllApart p [] = Unit
AllApart p (call ∷ calls) = IsApart p call × AllApart p calls

-- The packet has one reference, which nothing holds, and is not in the pool.
abbrev pub Lost : ℕ → LiveStream → Pool → Type 0
Lost p s pool = (pool.refs p ≡ 1) × (count p pool.free ≡ 0) × (holders p s ≡ 0)

-- A step of the goroutine of a buffered subscriber.
abbrev by_channel : (Buffered → Pool → Buffered × Pool) → Subscriber → Pool → Subscriber × Pool
by_channel f (live l) pool = (live l, pool)
by_channel f (buffered b) pool = let (b', pool') = f b pool in (buffered b', pool')

abbrev at_subscriber :
    (Subscriber → Pool → Subscriber × Pool) → String → LiveStream → Pool → LiveStream × Pool
at_subscriber f id s pool = elim (lookup id s.subs) [
  | none ↦ (s, pool)
  | some sub ↦ let (sub', pool') = f sub pool in (record s { subs = insert id sub' s.subs }, pool')
]

count-take_out : (p q : ℕ) (qs : List ℕ) → q ≢ p → count p (take_out q qs) ≡ count p qs
unfolding take_out count
count-take_out p q [] apart = refl
count-take_out p q (x ∷ qs) apart = ground (arith, apart, count-take_out p q qs apart)

count-take_out_self : (p : ℕ) (qs : List ℕ) → count p qs ≤ 1 → count p (take_out p qs) ≡ 0
unfolding take_out count
count-take_out_self p [] once = refl
count-take_out_self p (q ∷ qs) once = elim (Bool-cases (q == p)) [
  | inl e ↦ ground (arith, e, once)
  | inr e ↦ ground (arith, e, once, count-take_out_self p qs (omega (arith, once)))
]

-- The step takes no reference to `p` from a subscriber that has none.
abbrev Leaves : ℕ → (Subscriber → Pool → Subscriber × Pool) → Type 0
Leaves p f =
    (sub : Subscriber) (pool : Pool)
    → count p (held sub) ≡ 0
    → Same p pool (f sub pool).1 × (count p (held (f sub pool).0) ≡ 0)

consume-Leaves : (p : ℕ) → Leaves p (by_channel consume)
unfolding consume held
consume-Leaves p (live l) pool h = ((refl, refl), h)
consume-Leaves p (buffered b) pool h = elim (List-cases b.queue) [
  | inl e ↦ ground (arith, e, h)
  | inr (q, rest, e) ↦
      let waiting : count p b.queue ≡ one p q + count p rest = rw e (count-cons p q rest) in
      ground (arith, e, h, waiting, Same-release p q pool (omega (arith, h, waiting)))
]

finish_run-Leaves : (p : ℕ) → Leaves p (by_channel finish_run)
unfolding finish_run held count
finish_run-Leaves p (live l) pool h = ((refl, refl), h)
finish_run-Leaves p (buffered b) pool h = ground (arith, h, Same-release_all p b.queue pool h)

at_subscriber-Lost :
    (p : ℕ) (f : Subscriber → Pool → Subscriber × Pool) (id : String) (s : LiveStream) (pool : Pool)
    → Leaves p f
    → Lost p s pool
    → Lost p (at_subscriber f id s pool).0 (at_subscriber f id s pool).1
unfolding insert
at_subscriber-Lost p f id s pool leaves h = elim (Option-cases (lookup id s.subs)) [
  | inl e ↦ ground (arith, e, h)
  | inr (sub, e) ↦
      let few = held_by-found p id sub s.subs e in
      let less = held_by-delete_le p id s.subs in
      let done = leaves sub pool (omega (arith, h, few)) in ground (arith, e, h, less, done)
]

dropped-Lost :
    (p : ℕ) (s : LiveStream) (pool : Pool)
    → accepts s ≡ false
    → holders p s ≡ 0
    → count p pool.free ≤ 1
    → Lost p (ingest_packet p s (acquire p pool)).0 (ingest_packet p s (acquire p pool)).1
unfolding ingest_packet acquire
dropped-Lost p s pool dropped unheld once =
    ground (arith, dropped, unheld, once, count-take_out_self p pool.free once)

module _ (info : ℕ → AvPacket) where
  unfoldable pub run_call : StreamCall → LiveStream → Pool → LiveStream × Pool
  run_call (pumped sent) s pool = pump info sent s pool
  run_call (added id sub) s pool = (add_subscriber id sub s, pool)
  run_call (removed id) s pool = remove_subscriber id s pool
  run_call (consumed id) s pool = at_subscriber (by_channel consume) id s pool
  run_call (finished id) s pool = at_subscriber (by_channel finish_run) id s pool
  run_call (acquired q) s pool = (s, acquire q pool)
  run_call (ingested q) s pool = ingest_packet q s pool
  run_call ended s pool = close s pool

  unfoldable pub run_calls : List StreamCall → LiveStream → Pool → LiveStream × Pool
  run_calls [] s pool = (s, pool)
  run_calls (call ∷ calls) s pool =
      let (s', pool') = run_call call s pool in run_calls calls s' pool'

  pump-Lost :
      (p : ℕ) (sent : String → ℕ → Bool) (s : LiveStream) (pool : Pool)
      → Lost p s pool
      → Lost p (pump info sent s pool).0 (pump info sent s pool).1
  unfolding pump
  pump-Lost p sent s pool h = elim (List-cases s.ingest) [
    | inl e ↦ ground (arith, e, h)
    | inr (q, rest, e) ↦
        let waiting : count p s.ingest ≡ one p q + count p rest = rw e (count-cons p q rest) in
        let handed =
          Same-fan_out info p q sent s.subs pool (omega (arith, h, waiting)) (omega (arith, h)) in
        let given =
          Same-release p q (fan_out info sent q s.subs pool).1 (omega (arith, h, waiting)) in
        ground (arith, e, h, waiting, handed, given)
  ]

  remove_subscriber-Lost :
      (p : ℕ) (id : String) (s : LiveStream) (pool : Pool)
      → Lost p s pool
      → Lost p (remove_subscriber id s pool).0 (remove_subscriber id s pool).1
  unfolding remove_subscriber
  remove_subscriber-Lost p id s pool h = elim (Option-cases (lookup id s.subs)) [
    | inl e ↦ ground (arith, e, h)
    | inr (sub, e) ↦
        let few = held_by-found p id sub s.subs e in
        let less = held_by-delete_le p id s.subs in
        let done = Same-finish p sub pool (omega (arith, h, few)) in
        ground (arith, e, h, less, done)
  ]

  close-Lost :
      (p : ℕ) (s : LiveStream) (pool : Pool)
      → Lost p s pool
      → Lost p (close s pool).0 (close s pool).1
  unfolding close
  close-Lost p s pool h =
      let done = Same-close_all p s.subs pool (omega (arith, h)) in ground (arith, h, done)

  run_call-Lost :
      (p : ℕ) (call : StreamCall) (s : LiveStream) (pool : Pool)
      → IsApart p call
      → Lost p s pool
      → Lost p (run_call call s pool).0 (run_call call s pool).1
  unfolding run_call add_subscriber insert acquire ingest_packet
  run_call-Lost p (pumped sent) s pool apart h = pump-Lost p sent s pool h
  run_call-Lost p (added id sub) s pool apart h =
      ground (arith, apart, h, held_by-delete_le p id s.subs)
  run_call-Lost p (removed id) s pool apart h = remove_subscriber-Lost p id s pool h
  run_call-Lost p (consumed id) s pool apart h =
      at_subscriber-Lost p (by_channel consume) id s pool (consume-Leaves p) h
  run_call-Lost p (finished id) s pool apart h =
      at_subscriber-Lost p (by_channel finish_run) id s pool (finish_run-Leaves p) h
  run_call-Lost p (acquired q) s pool apart h =
      ground (arith, apart, h, count-take_out p q pool.free apart)
  run_call-Lost p (ingested q) s pool apart h =
      ground (arith, apart, h, count-append p s.ingest (q ∷ []), count-single p q)
  run_call-Lost p ended s pool apart h = close-Lost p s pool h

  run_calls-Lost :
      (p : ℕ) (calls : List StreamCall) (s : LiveStream) (pool : Pool)
      → AllApart p calls
      → Lost p s pool
      → Lost p (run_calls calls s pool).0 (run_calls calls s pool).1
  unfolding run_calls
  run_calls-Lost p [] s pool apart h = h
  run_calls-Lost p (call ∷ calls) s pool apart h =
      let (s', pool') = run_call call s pool in
      run_calls-Lost p calls s' pool' apart.1 (run_call-Lost p call s pool apart.0 h)

  -- A packet that comes from the pool, which has it at most once, while the stream does not hold it, and
  -- that `Ingest` drops, because the stream is closed or its buffer is full, is never released. It keeps
  -- its one reference, the stream does not hold it, and the pool does not get it back, right then and
  -- through any later rounds of the pump, subscribers that come without it, work and go, other packets
  -- from the pool and calls of `Ingest` with them, and `Close`.
  pub ingest_packet-Lost :
      (p : ℕ) (s : LiveStream) (pool : Pool) (calls : List StreamCall)
      → accepts s ≡ false
      → holders p s ≡ 0
      → count p pool.free ≤ 1
      → AllApart p calls
      → let first = ingest_packet p s (acquire p pool) in
        let last = run_calls calls first.0 first.1 in Lost p first.0 first.1 × Lost p last.0 last.1
  ingest_packet-Lost p s pool calls dropped unheld once apart =
      let first = ingest_packet p s (acquire p pool) in
      let lost = dropped-Lost p s pool dropped unheld once in
      (lost, run_calls-Lost p calls first.0 first.1 apart lost)
