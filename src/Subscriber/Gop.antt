-- ===== src/Subscriber/Gop.antt =====
-- What the GOP cache of a livestream subscriber holds, whatever was delivered to it.
use cam_server.Base.{
  ℕ, zero, suc, ◌+◌, ◌-◌, ◌≤◌, ◌≡◌, refl, ap, Bool, ◌&&◌, List, [], ◌∷◌, ◌++◌, length,
  length-append, length-drop, drop, arith, Bool-cases, inl, inr, if◌then◌else◌, ◌==◌,
}
use cam_server.Stream.Packet.{AvPacket, packet_video}
use cam_server.Stream.Pool.{Pool}
use cam_server.Subscriber.Defs.{gop_cache_max, start_group, cut_group, update_gop}

-- The last `n` elements.
abbrev pub last {ℓ} : {A : Type ℓ} → ℕ → List A → List A
last n xs = drop (length xs - n) xs

drop-append {ℓ} :
    {A : Type ℓ} (n : ℕ) (xs ys : List A) → n ≤ length xs → drop n (xs ++ ys) ≡ drop n xs ++ ys
drop-append zero xs ys h = refl
drop-append (suc n) [] ys h = absurd (omega arith)
drop-append (suc n) (x ∷ xs) ys h = drop-append n xs ys (omega arith)

drop-nil {ℓ} : {A : Type ℓ} (n : ℕ) → drop {A = A} n [] ≡ []
drop-nil zero = refl
drop-nil (suc n) = refl

drop-drop {ℓ} : {A : Type ℓ} (m n k : ℕ) (xs : List A) → k ≡ n + m → drop m (drop n xs) ≡ drop k xs
drop-drop m zero k xs e = ap (λ j. drop j xs) (omega arith)
drop-drop m (suc n) zero xs e = absurd (omega arith)
drop-drop m (suc n) (suc k) [] e = drop-nil m
drop-drop m (suc n) (suc k) (x ∷ xs) e = drop-drop m n k xs (omega arith)

-- To keep the last `n`, the last `n` of what came before are all that matter.
last-append {ℓ} :
    {A : Type ℓ} (n : ℕ) (xs : List A) (x : A)
    → last n (last n xs ++ x ∷ []) ≡ last n (xs ++ x ∷ [])
last-append n xs x =
    let m = length xs - n in
    rw (← drop-append m xs (x ∷ []) (omega arith)) (
      drop-drop _ m _ (xs ++ x ∷ [])
        (omega (arith, length-drop m (xs ++ x ∷ []), length-append xs (x ∷ []))))

last-short {ℓ} : {A : Type ℓ} (n : ℕ) (xs : List A) → length xs ≤ n → last n xs ≡ xs
last-short n xs h = let e : length xs - n ≡ 0 = omega arith in rw e

length-last {ℓ} : {A : Type ℓ} (n : ℕ) (xs : List A) → length (last n xs) ≤ n
length-last n xs = omega (arith, length-drop (length xs - n) xs)

module _ (info : ℕ → AvPacket) where
  -- A packet that starts a group: a video keyframe.
  abbrev pub starts_group : ℕ → Bool
  starts_group p = (info p).packet_type == packet_video && (info p).is_keyframe

  -- The packets since the last video keyframe, that one included.
  abbrev pub group : List ℕ → List ℕ → List ℕ
  group acc [] = acc
  group acc (p ∷ ps) = group (if starts_group p then p ∷ [] else acc ++ p ∷ []) ps

  -- The cache after some packets were delivered.
  unfoldable pub cache_after : List ℕ → Pool → List ℕ → List ℕ
  cache_after gop pool [] = gop
  cache_after gop pool (p ∷ ps) =
      let (gop', pool') = update_gop info p gop pool in cache_after gop' pool' ps

  -- One update: the last 256 of the group so far and the packet.
  pub update_gop-last :
      (p : ℕ) (gop : List ℕ) (pool : Pool)
      → (update_gop info p gop pool).0
        ≡ last gop_cache_max ((if starts_group p then [] else gop) ++ p ∷ [])
  unfolding update_gop start_group cut_group
  update_gop-last p gop pool = ground arith

  step :
      (p : ℕ) (acc : List ℕ) (pool : Pool)
      → (update_gop info p (last gop_cache_max acc) pool).0
        ≡ last gop_cache_max (if starts_group p then p ∷ [] else acc ++ p ∷ [])
  step p acc pool =
      rw (update_gop-last p (last gop_cache_max acc) pool) (elim (Bool-cases (starts_group p)) [
        | inl e ↦ rw e
        | inr e ↦ rw e (last-append gop_cache_max acc p)
      ])

  cache_after-last :
      (ps acc : List ℕ) (pool : Pool)
      → cache_after (last gop_cache_max acc) pool ps ≡ last gop_cache_max (group acc ps)
  unfolding cache_after
  cache_after-last [] acc pool = refl
  cache_after-last (p ∷ ps) acc pool = rw (step p acc pool, cache_after) (cache_after-last ps _ _)

  -- The cache always holds the last packets of the current group, the packets since the last
  -- video keyframe, and never more than 256.
  pub cache_after-group :
      (ps : List ℕ) (pool : Pool)
      → (cache_after [] pool ps ≡ last gop_cache_max (group [] ps))
        × (length (cache_after [] pool ps) ≤ gop_cache_max)
  cache_after-group ps pool =
      let e = cache_after-last ps [] pool in (e, rw e (length-last gop_cache_max (group [] ps)))
