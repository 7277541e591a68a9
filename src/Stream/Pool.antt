-- ===== src/Stream/Pool.antt =====
-- internal/stream/types.go: the reference counts of packets and the pool that they return to. A
-- packet is known by its address, a number. The count is an `atomic.Int32`, here modulo 2^32.
use cam_server.Base.{
  zero, suc, ltb, length, take, ℕ, ◌+◌, ◌-◌, ◌%◌, ◌≡◌, List, [], ◌∷◌, ◌==◌, if◌then◌else◌, arith,
}
use cam_server.Stream.Packet.{Bytes}

abbrev pub modulus : ℕ
modulus = 4294967296

pub record Pool : Type 0 where
  pub refs : ℕ → ℕ
  pub free : List ℕ

abbrev set_refs : ℕ → ℕ → (ℕ → ℕ) → ℕ → ℕ
set_refs p n refs q = if q == p then n else refs q

-- `packetPool.Get` takes a packet out of the pool, if it is there.
unfoldable pub take_out : ℕ → List ℕ → List ℕ
take_out p [] = []
take_out p (q ∷ qs) = if q == p then qs else q ∷ take_out p qs

-- The packet that `NewAVPacket` hands out: it has the address `p`, which is one of the pool or a new
-- one, is no longer in the pool, and has one reference and cleared fields.
unfoldable pub acquire : ℕ → Pool → Pool
acquire p pool = record { refs = set_refs p 1 pool.refs; free = take_out p pool.free }

-- `make([]byte, n)`
unfoldable pub zeros : ℕ → Bytes
zeros zero = []
zeros (suc n) = 0 ∷ zeros n

-- The bytes of a packet that `NewAVPacket` hands out, for a buffer that held `buf` over its whole
-- capacity: a buffer that is large enough is used again as it is.
unfoldable pub new_data : ℕ → Bytes → Bytes
new_data size buf = if ltb (length buf) size then zeros size else take size buf

-- `Retain`
unfoldable pub retain : ℕ → Pool → Pool
retain p pool = record pool { refs = set_refs p ((pool.refs p + 1) % modulus) pool.refs }

-- `Release`: the packet goes back to the pool when its count reaches 0.
unfoldable pub release : ℕ → Pool → Pool
release p pool =
    let n = (pool.refs p + (modulus - 1)) % modulus in
    record { refs = set_refs p n pool.refs; free = if n == 0 then p ∷ pool.free else pool.free }

-- A loop that releases the packets of a list.
unfoldable pub release_all : List ℕ → Pool → Pool
release_all [] pool = pool
release_all (p ∷ ps) pool = release_all ps (release p pool)

-- How often a packet is in a list.
unfoldable pub count : ℕ → List ℕ → ℕ
count q [] = 0
count q (p ∷ ps) = (if q == p then 1 else 0) + count q ps

-- One reference to `p`, seen at `q`.
abbrev pub one : ℕ → ℕ → ℕ
one q p = if q == p then 1 else 0

pub refs-retain :
    (q p : ℕ) (pool : Pool) → (retain p pool).refs q % modulus ≡ (pool.refs q + one q p) % modulus
unfolding retain
refs-retain q p pool = ground arith

pub refs-release :
    (q p : ℕ) (pool : Pool) → ((release p pool).refs q + one q p) % modulus ≡ pool.refs q % modulus
unfolding release
refs-release q p pool = ground arith

pub refs-release_all :
    (q : ℕ) (ps : List ℕ) (pool : Pool)
    → ((release_all ps pool).refs q + count q ps) % modulus ≡ pool.refs q % modulus
unfolding release_all count
refs-release_all q [] pool = omega arith
refs-release_all q (p ∷ ps) pool =
    omega (arith, refs-release_all q ps (release p pool), refs-release q p pool)
