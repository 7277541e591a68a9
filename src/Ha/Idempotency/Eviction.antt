-- ===== src/Ha/Idempotency/Eviction.antt =====
-- `enforceMaxKeysLocked`: the bound on the number of keys, and what is never evicted.
use cam_server.Base.{
  ℕ, zero, suc, ◌≤◌, ◌<◌, ◌≡◌, refl, ◌≢◌, true, false, Option, none, some, String, [], ◌∷◌, ◌⊎◌,
  inl, inr, leb, length, arith, eq_iff, str_eq, Bool-cases, Option-cases, GoMap, lookup, delete,
  Distinct, lookup-delete, Distinct-delete, length-delete,
}
use cam_server.Ha.Idempotency.Store.{Entry, older, pick_victim, evict, enforce_max_keys}

-- A victim so far stands in the map and is ready.
abbrev IsVictim : GoMap Entry → Option (String × Entry) → Type 0
IsVictim m none = Unit
IsVictim m (some (k, e)) = (lookup k m ≡ some e) × (e.ready ≡ true)

older-IsVictim :
    (m : GoMap Entry) (k : String) (e : Entry) (v : Option (String × Entry))
    → lookup k m ≡ some e
    → IsVictim m v
    → IsVictim m (older k e v)
unfolding older
older-IsVictim m k e none found h = ground arith
older-IsVictim m k e (some (j, w)) found h = ground arith

-- The loop over `rest`, a part of the map `m`.
pick_victim-IsVictim :
    (m rest : GoMap Entry) (v : Option (String × Entry))
    → ((k : String) (e : Entry) → lookup k rest ≡ some e → lookup k m ≡ some e)
    → Distinct rest
    → IsVictim m v
    → IsVictim m (pick_victim rest v)
unfolding pick_victim lookup
pick_victim-IsVictim m [] v part d h = h
pick_victim-IsVictim m ((k, e) ∷ rest) v part d h =
    pick_victim-IsVictim m rest (older k e v) (λ j w found. part j w (ground (arith, eq_iff k j)))
      d.1 (older-IsVictim m k e v (part k e (ground (arith, eq_iff k k))) h)

older-ne-none :
    (k : String) (e : Entry) (v : Option (String × Entry)) → v ≢ none → older k e v ≢ none
unfolding older
older-ne-none k e none h = absurd (h refl)
older-ne-none k e (some (j, w)) h = ground arith

pick_victim-ne-none :
    (rest : GoMap Entry) (v : Option (String × Entry)) → v ≢ none → pick_victim rest v ≢ none
unfolding pick_victim
pick_victim-ne-none [] v h = h
pick_victim-ne-none ((k, e) ∷ rest) v h =
    pick_victim-ne-none rest (older k e v) (older-ne-none k e v h)

pick_victim-eq-none :
    (m : GoMap Entry) (v : Option (String × Entry)) → pick_victim m v ≡ none → v ≡ none
pick_victim-eq-none m none h = refl
pick_victim-eq-none m (some v) h = absurd (pick_victim-ne-none m (some v) (λ p. cc) h)

older-eq-none : (k : String) (e : Entry) → older k e none ≡ none → e.ready ≡ false
unfolding older
older-eq-none k e h = ground arith

-- Where the loop finds no victim, no entry is ready.
pick_victim-none :
    (m : GoMap Entry) (k : String) (e : Entry)
    → pick_victim m none ≡ none
    → lookup k m ≡ some e
    → e.ready ≡ false
unfolding lookup pick_victim
pick_victim-none [] k e h found = cc
pick_victim-none ((j, w) ∷ m) k e h found =
    let first = pick_victim-eq-none m (older j w none) h in
    let rest : pick_victim m none ≡ none = rw first at h in
    ground (arith, older-eq-none j w first, pick_victim-none m k e rest)

-- The entry is at least as old as the one that the loop has so far.
abbrev Older : Option (String × Entry) → Entry → Type 0
Older none e = ⊥
Older (some (k, v)) e = v.created_at ≤ e.created_at

older-Older :
    (k : String) (e : Entry) (v : Option (String × Entry)) (x : Entry)
    → Older v x
    → Older (older k e v) x
unfolding older
older-Older k e none x h = absurd h
older-Older k e (some (j, w)) x h = ground arith

older-Older_self :
    (k : String) (e : Entry) (v : Option (String × Entry)) → e.ready ≡ true → Older (older k e v) e
unfolding older
older-Older_self k e none h = ground arith
older-Older_self k e (some (j, w)) h = ground arith

pick_victim-Older :
    (m : GoMap Entry) (v : Option (String × Entry)) (x : Entry)
    → Older v x
    → Older (pick_victim m v) x
unfolding pick_victim
pick_victim-Older [] v x h = h
pick_victim-Older ((k, e) ∷ m) v x h = pick_victim-Older m (older k e v) x (older-Older k e v x h)

-- The victim is at least as old as every ready entry of the map.
pick_victim-oldest :
    (m : GoMap Entry) (v : Option (String × Entry)) (k : String) (x : Entry)
    → lookup k m ≡ some x
    → x.ready ≡ true
    → Older (pick_victim m v) x
unfolding lookup pick_victim
pick_victim-oldest [] v k x found ready = cc
pick_victim-oldest ((j, e) ∷ m) v k x found ready = elim (Bool-cases (str_eq j k)) [
  | inl same ↦
      let here : e ≡ x = ground arith in
      rw (← here) (pick_victim-Older m (older j e v) e (older-Older_self j e v (ground arith)))
  | inr differ ↦ pick_victim-oldest m (older j e v) k x (ground arith) ready
]

-- What `enforceMaxKeysLocked` makes of the map `before`.
pub record IsEvicted (max_keys : ℕ) (before after : GoMap Entry) : Type 0 where
  pub distinct : Distinct after
  pub kept_value : (k : String) (e : Entry) → lookup k after ≡ some e → lookup k before ≡ some e
  pub unfinished_kept :
      (k : String) (e : Entry)
      → lookup k before ≡ some e
      → e.ready ≡ false
      → lookup k after ≡ some e
  pub oldest_first :
      (k j : String) (gone kept : Entry)
      → lookup k before ≡ some gone
      → lookup k after ≡ none
      → lookup j after ≡ some kept
      → kept.ready ≡ true
      → gone.created_at ≤ kept.created_at
  pub bounded :
      (length after ≤ max_keys)
      ⊎ ((k : String) (e : Entry) → lookup k after ≡ some e → e.ready ≡ false)
  pub untouched : length before ≤ max_keys → after ≡ before

IsEvicted-stop :
    (max_keys : ℕ) (m : GoMap Entry)
    → Distinct m
    → (length m ≤ max_keys) ⊎ ((k : String) (e : Entry) → lookup k m ≡ some e → e.ready ≡ false)
    → IsEvicted max_keys m m
IsEvicted-stop max_keys m d b = record {
  distinct = d;
  kept_value = λ k e h. h;
  unfinished_kept = λ k e h r. h;
  oldest_first = λ k j gone kept h g. cc;
  bounded = b;
  untouched = λ h. refl;
}

IsEvicted-round :
    (max_keys : ℕ) (m r : GoMap Entry) (k : String) (v : Entry)
    → max_keys < length m
    → lookup k m ≡ some v
    → v.ready ≡ true
    → ((j : String) (x : Entry)
        → lookup j m ≡ some x
        → x.ready ≡ true
        → v.created_at ≤ x.created_at)
    → IsEvicted max_keys (delete k m) r
    → IsEvicted max_keys m r
IsEvicted-round max_keys m r k v over found ready oldest h = record {
  distinct = h.distinct;
  kept_value = λ j e p. ground (arith, h.kept_value j e p, lookup-delete k j m);
  unfinished_kept =
      λ j e p q. h.unfinished_kept j e (ground (arith, lookup-delete k j m, eq_iff k j)) q;
  oldest_first = λ i j gone kept p q s t. elim (Bool-cases (str_eq k i)) [
    | inl same ↦
        let there : lookup j m ≡ some kept =
          ground (arith, h.kept_value j kept s, lookup-delete k j m) in
        ground (arith, eq_iff k i, oldest j kept there t)
    | inr differ ↦ h.oldest_first i j gone kept (ground (arith, lookup-delete k i m)) q s t
  ];
  bounded = h.bounded;
  untouched = λ p. absurd (omega arith);
}

-- With fuel for every entry, the eviction meets its specification.
evict-IsEvicted :
    (fuel max_keys : ℕ) (m : GoMap Entry)
    → Distinct m
    → length m ≤ fuel
    → IsEvicted max_keys m (evict fuel max_keys m)
unfolding evict
evict-IsEvicted zero max_keys m d enough = IsEvicted-stop max_keys m d (inl (omega arith))
evict-IsEvicted (suc fuel) max_keys m d enough = elim (Bool-cases (leb (length m) max_keys)) [
  | inl fits ↦ rw (fits, evict) (IsEvicted-stop max_keys m d (inl (ground arith)))
  | inr over ↦ elim (Option-cases (pick_victim m none)) [
    | inl e ↦
        rw (over, e, evict) (IsEvicted-stop max_keys m d (inr (λ k x. pick_victim-none m k x e)))
    | inr ((k, v), e) ↦
        let victim = pick_victim-IsVictim m m none (λ j w p. p) d tt in
        let found : IsVictim m (some (k, v)) = rw e at victim in
        rw (over, e, evict)
          (IsEvicted-round max_keys m _ k v (ground arith) found.0 found.1
            (λ j x p r. (rw e at (pick_victim-oldest m none j x p r)))
            (evict-IsEvicted fuel max_keys (delete k m) (Distinct-delete k m d)
              (omega (arith, length-delete k v m d found.0, enough))))
  ]
]

-- On a map without duplicate keys: eviction keeps the value of every key that it keeps and every unfinished entry; it removes a
-- finished entry only if no finished entry that stays is older; it stops within the bound unless
-- only unfinished entries are left, and it touches nothing of a map that is within the bound.
pub enforce_max_keys-IsEvicted :
    (max_keys : ℕ) (m : GoMap Entry)
    → Distinct m
    → IsEvicted max_keys m (enforce_max_keys max_keys m)
unfolding enforce_max_keys
enforce_max_keys-IsEvicted max_keys m d = evict-IsEvicted (length m) max_keys m d (omega arith)
