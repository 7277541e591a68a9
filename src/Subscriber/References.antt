-- ===== src/Subscriber/References.antt =====
-- The subscribers account for every reference that they take and give up. Counts are compared
-- modulo 2^32, as the `atomic.Int32` holds them.
use cam_server.Base.{
  ℕ, zero, suc, ◌+◌, ◌-◌, ◌%◌, ◌≡◌, refl, ap, Bool, true, List, [], ◌∷◌, ◌++◌, List-cases, length,
  take, drop, arith, inl, inr,
}
use cam_server.Stream.Packet.{AvPacket}
use cam_server.Stream.Pool.{
  Pool, modulus, retain, count, one, refs-retain, refs-release, refs-release_all,
}
use cam_server.Subscriber.Defs.{
  Buffered, Subscriber, live, buffered, start_group, cut_group, update_gop, deliver, held, consume,
  finish_run, close, gop_cache_max,
}

pub count-append : (q : ℕ) (xs ys : List ℕ) → count q (xs ++ ys) ≡ count q xs + count q ys
unfolding count
count-append q [] ys = omega arith
count-append q (x ∷ xs) ys = omega (arith, count-append q xs ys)

pub count-take-drop :
    (q n : ℕ) (xs : List ℕ) → count q (take n xs) + count q (drop n xs) ≡ count q xs
unfolding count
count-take-drop q zero xs = omega arith
count-take-drop q (suc n) [] = omega arith
count-take-drop q (suc n) (x ∷ xs) = omega (arith, count-take-drop q n xs)

pub count-single : (q p : ℕ) → count q (p ∷ []) ≡ one q p
unfolding count
count-single q p = omega arith

pub count-cons : (q p : ℕ) (ps : List ℕ) → count q (p ∷ ps) ≡ one q p + count q ps
unfolding count
count-cons q p ps = refl

-- From one pool and what is held to another, each reference is accounted for: `gained` references
-- come from outside.
abbrev pub Accounts : (ℕ → ℕ) → Pool → List ℕ → Pool → List ℕ → Type 0
Accounts gained pool xs pool' xs' =
    (q : ℕ)
    → (pool'.refs q + count q xs + gained q) % modulus ≡ (pool.refs q + count q xs') % modulus

module _ (info : ℕ → AvPacket) where
  start_group-refs :
      (p : ℕ) (gop : List ℕ) (pool : Pool) (q : ℕ)
      → ((start_group info p gop pool).1.refs q + count q gop) % modulus
        ≡ (pool.refs q + count q (start_group info p gop pool).0) % modulus
  unfolding start_group count
  start_group-refs p gop pool q = ground (arith, refs-release_all q gop pool)

  cut_group-refs :
      (gop : List ℕ) (pool : Pool) (q : ℕ)
      → ((cut_group info gop pool).1.refs q + count q gop) % modulus
        ≡ (pool.refs q + count q (cut_group info gop pool).0) % modulus
  unfolding cut_group
  cut_group-refs gop pool q = ground (
    arith,
    refs-release_all q (take (length gop - gop_cache_max) gop) pool,
    count-take-drop q (length gop - gop_cache_max) gop,
  )

  -- The cache takes one reference for the packet that it adds.
  update_gop-refs :
      (p : ℕ) (gop : List ℕ) (pool : Pool) (q : ℕ)
      → ((update_gop info p gop pool).1.refs q + count q gop) % modulus
        ≡ (pool.refs q + count q (update_gop info p gop pool).0) % modulus
  unfolding update_gop
  update_gop-refs p gop pool q =
      let (gop1, pool1) = start_group info p gop pool in
      omega (
        arith,
        start_group-refs p gop pool q,
        refs-retain q p pool1,
        count-append q gop1 (p ∷ []),
        count-single q p,
        cut_group-refs (gop1 ++ p ∷ []) (retain p pool1) q,
      )

  -- `Deliver` accounts for the reference that it is given, and for every other: a packet that the
  -- subscriber keeps has its count, and a packet that it drops or sheds is released, once each.
  pub deliver-Accounts :
      (sent : Bool) (p : ℕ) (s : Subscriber) (pool : Pool)
      → Accounts
          (λ q. one q p)
          pool
          (held s)
          (deliver info sent p s pool).1
          (held (deliver info sent p s pool).0)
  unfolding deliver held
  deliver-Accounts sent p (live s) pool q =
      let pool' = (update_gop info p s.gop pool).1 in
      omega (arith, update_gop-refs p s.gop pool q, refs-release q p pool')
  deliver-Accounts sent p (buffered s) pool q =
      ground (arith, refs-release q p pool, count-append q s.queue (p ∷ []), count-single q p)

finish_run-Accounts :
    (s : Buffered) (pool : Pool)
    → Accounts (λ q. 0) pool s.queue (finish_run s pool).1 (finish_run s pool).0.queue
unfolding finish_run count
finish_run-Accounts s pool q = ground (arith, refs-release_all q s.queue pool)

consume-Accounts :
    (s : Buffered) (pool : Pool)
    → Accounts (λ q. 0) pool s.queue (consume s pool).1 (consume s pool).0.queue
unfolding consume
consume-Accounts s pool q = elim (List-cases s.queue) [
  | inl e ↦ rw (e, consume) (omega (arith, ap (count q) e))
  | inr (p, rest, e) ↦
      rw (e, consume) (ground (arith, refs-release q p pool, ap (count q) e, count-cons q p rest))
]

-- `Close` gives up references only together with the packets that the subscriber held.
pub close-Accounts :
    (s : Subscriber) (pool : Pool)
    → Accounts (λ q. 0) pool (held s) (close s pool).1 (held (close s pool).0)
unfolding close held count
close-Accounts (live s) pool q = omega (arith, refs-release_all q s.gop pool)
close-Accounts (buffered s) pool q = finish_run-Accounts s pool q

-- Whether `Close` gets everything released: the goroutine of a buffered subscriber must still run.
abbrev pub drains : Subscriber → Bool
drains (live s) = true
drains (buffered s) = s.running

-- After `Close` such a subscriber has given up every reference that it held.
pub close-drains :
    (s : Subscriber) (pool : Pool) (q : ℕ)
    → drains s ≡ true
    → ((close s pool).1.refs q + count q (held s)) % modulus ≡ pool.refs q % modulus
unfolding close finish_run held
close-drains (live s) pool q d = refs-release_all q s.gop pool
close-drains (buffered s) pool q d = ground (arith, refs-release_all q s.queue pool)
