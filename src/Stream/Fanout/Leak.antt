-- ===== src/Stream/Fanout/Leak.antt =====
-- A packet that nothing holds stays as it is: internal/stream/fanout.go with the reference counts of
-- internal/stream/types.go. So it is with a packet that `Ingest` drops.
use cam_server.Base.{
  ℕ, ◌≤◌, ◌≡◌, refl, Bool, some, List, [], ◌∷◌, ◌++◌, String, length, take, ◌-◌, GoMap, lookup,
  delete, arith,
}
use cam_server.Stream.Fanout.{fan_out, close_all}
use cam_server.Stream.Fanout.Balance.{held_by}
use cam_server.Stream.Packet.{AvPacket}
use cam_server.Stream.Pool.{Pool, retain, release, release_all, count, one}
use cam_server.Subscriber.Defs
use cam_server.Subscriber.Defs.{
  Subscriber, live, buffered, start_group, cut_group, update_gop, deliver, held, finish_run,
  gop_cache_max,
}
use cam_server.Subscriber.References.{count-append, count-take-drop, count-single}

-- The count of `p`, and how often the pool has it, are the same.
abbrev pub Same : ℕ → Pool → Pool → Type 0
Same p pool pool' = (pool'.refs p ≡ pool.refs p) × (count p pool'.free ≡ count p pool.free)

Same-retain : (p q : ℕ) (pool : Pool) → one p q ≡ 0 → Same p pool (retain q pool)
unfolding retain
Same-retain p q pool apart = ground arith

pub Same-release : (p q : ℕ) (pool : Pool) → one p q ≡ 0 → Same p pool (release q pool)
unfolding release count
Same-release p q pool apart = ground arith

pub Same-release_all :
    (p : ℕ) (qs : List ℕ) (pool : Pool) → count p qs ≡ 0 → Same p pool (release_all qs pool)
unfolding release_all count
Same-release_all p [] pool apart = (refl, refl)
Same-release_all p (q ∷ qs) pool apart =
    let there = Same-release p q pool (omega arith) in
    let more = Same-release_all p qs (release q pool) (omega arith) in ground (arith, there, more)

module _ (info : ℕ → AvPacket) where
  Same-start_group :
      (p q : ℕ) (gop : List ℕ) (pool : Pool)
      → count p gop ≡ 0
      → Same p pool (start_group info q gop pool).1 × (count p (start_group info q gop pool).0 ≡ 0)
  unfolding start_group count
  Same-start_group p q gop pool apart = ground (arith, apart, Same-release_all p gop pool apart)

  Same-cut_group :
      (p : ℕ) (gop : List ℕ) (pool : Pool)
      → count p gop ≡ 0
      → Same p pool (cut_group info gop pool).1 × (count p (cut_group info gop pool).0 ≡ 0)
  unfolding cut_group
  Same-cut_group p gop pool apart =
      let n = length gop - gop_cache_max in
      let both = count-take-drop p n gop in
      ground (arith, apart, both, Same-release_all p (take n gop) pool (omega (arith, both)))

  Same-update_gop :
      (p q : ℕ) (gop : List ℕ) (pool : Pool)
      → one p q ≡ 0
      → count p gop ≡ 0
      → Same p pool (update_gop info q gop pool).1 × (count p (update_gop info q gop pool).0 ≡ 0)
  unfolding update_gop
  Same-update_gop p q gop pool apart unheld =
      let (gop1, pool1) = start_group info q gop pool in
      let first = Same-start_group p q gop pool unheld in
      let kept = Same-retain p q pool1 apart in
      let added : count p (gop1 ++ q ∷ []) ≡ 0 =
        omega (arith, first, count-append p gop1 (q ∷ []), count-single p q) in
      let cut = Same-cut_group p (gop1 ++ q ∷ []) (retain q pool1) added in
      ground (arith, first, kept, cut)

  Same-deliver :
      (p q : ℕ) (done : Bool) (sub : Subscriber) (pool : Pool)
      → one p q ≡ 0
      → count p (held sub) ≡ 0
      → Same p pool (deliver info done q sub pool).1
        × (count p (held (deliver info done q sub pool).0) ≡ 0)
  unfolding deliver held
  Same-deliver p q done (live l) pool apart unheld =
      let updated = Same-update_gop p q l.gop pool apart unheld in
      let released = Same-release p q (update_gop info q l.gop pool).1 apart in
      ground (arith, updated, released)
  Same-deliver p q done (buffered b) pool apart unheld = ground (
    arith,
    apart,
    unheld,
    Same-release p q pool apart,
    count-append p b.queue (q ∷ []),
    count-single p q,
  )

  pub Same-fan_out :
      (p q : ℕ) (sent : String → ℕ → Bool) (subs : GoMap Subscriber) (pool : Pool)
      → one p q ≡ 0
      → held_by p subs ≡ 0
      → Same p pool (fan_out info sent q subs pool).1
        × (held_by p (fan_out info sent q subs pool).0 ≡ 0)
  unfolding fan_out
  Same-fan_out p q sent [] pool apart unheld = ((refl, refl), refl)
  Same-fan_out p q sent ((id, sub) ∷ subs) pool apart unheld =
      let kept = Same-retain p q pool apart in
      let (sub', pool1) = deliver info (sent id q) q sub (retain q pool) in
      let given = Same-deliver p q (sent id q) sub (retain q pool) apart (omega arith) in
      let more = Same-fan_out p q sent subs pool1 apart (omega arith) in
      ground (arith, kept, given, more)

pub Same-finish :
    (p : ℕ) (sub : Subscriber) (pool : Pool)
    → count p (held sub) ≡ 0
    → Same p pool (Defs.close sub pool).1
unfolding Defs.close finish_run held
Same-finish p (live l) pool unheld = Same-release_all p l.gop pool unheld
Same-finish p (buffered b) pool unheld = ground (arith, Same-release_all p b.queue pool unheld)

pub Same-close_all :
    (p : ℕ) (subs : GoMap Subscriber) (pool : Pool)
    → held_by p subs ≡ 0
    → Same p pool (close_all subs pool)
unfolding close_all
Same-close_all p [] pool unheld = (refl, refl)
Same-close_all p ((id, sub) ∷ subs) pool unheld =
    let first = Same-finish p sub pool (omega arith) in
    let more = Same-close_all p subs (Defs.close sub pool).1 (omega arith) in
    ground (arith, first, more)

pub held_by-delete_le :
    (p : ℕ) (id : String) (subs : GoMap Subscriber) → held_by p (delete id subs) ≤ held_by p subs
unfolding delete
held_by-delete_le p id [] = omega arith
held_by-delete_le p id ((j, sub) ∷ subs) = ground (arith, held_by-delete_le p id subs)

pub held_by-found :
    (p : ℕ) (id : String) (sub : Subscriber) (subs : GoMap Subscriber)
    → lookup id subs ≡ some sub
    → count p (held sub) ≤ held_by p subs
unfolding lookup
held_by-found p id sub [] there = absurd (ground (arith, there))
held_by-found p id sub ((j, x) ∷ subs) there = ground (arith, there, held_by-found p id sub subs)
