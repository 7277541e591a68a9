-- ===== src/Protocol/Taxonomy/Sorting.antt =====
-- What the sorting of a class does to its identifiers.
use cam_server.Base.{
  ℤ, pos, negsuc, ◌≡◌, refl, true, false, String, List, [], ◌∷◌, map, GoMap, All, elem, arith,
  Bool-cases, inl, inr, str_eq, lookup,
}
use cam_server.Protocol.Taxonomy.{
  AdapterMetadata, int_less, less, fetch, insert_id, sort_ids, sort_classes, or_empty,
}

-- No priority is smaller than one that stands before it.
abbrev pub NotBefore : AdapterMetadata → AdapterMetadata → Type 0
NotBefore m n = int_less n.priority m.priority ≡ false

abbrev pub Ordered : List AdapterMetadata → Type 0
Ordered [] = Unit
Ordered (m ∷ ms) = All (NotBefore m) ms × Ordered ms

int_less_trans : (a b c : ℤ) → int_less b a ≡ false → int_less c b ≡ false → int_less c a ≡ false
unfolding int_less
int_less_trans (pos a) (pos b) (pos c) h k = ground (arith, h, k)
int_less_trans (pos a) (pos b) (negsuc c) h k = cc
int_less_trans (pos a) (negsuc b) c h k = cc
int_less_trans (negsuc a) (pos b) (pos c) h k = refl
int_less_trans (negsuc a) (pos b) (negsuc c) h k = cc
int_less_trans (negsuc a) (negsuc b) (pos c) h k = refl
int_less_trans (negsuc a) (negsuc b) (negsuc c) h k = ground (arith, h, k)

int_less-asym : (a b : ℤ) → int_less a b ≡ true → int_less b a ≡ false
unfolding int_less
int_less-asym (pos a) (pos b) h = ground (arith, h)
int_less-asym (pos a) (negsuc b) h = cc
int_less-asym (negsuc a) (pos b) h = refl
int_less-asym (negsuc a) (negsuc b) h = ground (arith, h)

less-NotBefore : (a b : AdapterMetadata) → less a b ≡ true → NotBefore a b
unfolding less
less-NotBefore a b h = ground (arith, h, int_less-asym a.priority b.priority)

less_not-NotBefore : (a b : AdapterMetadata) → less a b ≡ false → NotBefore b a
unfolding less
less_not-NotBefore a b h = ground (arith, h)

All-NotBefore :
    (a b : AdapterMetadata) (ms : List AdapterMetadata)
    → NotBefore a b
    → All (NotBefore b) ms
    → All (NotBefore a) ms
All-NotBefore a b [] h all = tt
All-NotBefore a b (m ∷ ms) h (k, all) =
    (int_less_trans a.priority b.priority m.priority h k, All-NotBefore a b ms h all)

module _ (by_id : GoMap AdapterMetadata) where
  insert_id-All :
      (m : AdapterMetadata) (x : String) (ys : List String)
      → NotBefore m (fetch by_id x)
      → All (NotBefore m) (map (fetch by_id) ys)
      → All (NotBefore m) (map (fetch by_id) (insert_id by_id x ys))
  unfolding insert_id
  insert_id-All m x [] h all = (h, tt)
  insert_id-All m x (y ∷ ys) h (k, all) = elim (Bool-cases (less (fetch by_id y) (fetch by_id x))) [
    | inl e ↦ rw e (k, insert_id-All m x ys h all)
    | inr e ↦ rw e (h, (k, all))
  ]

  insert_id-Ordered :
      (x : String) (ys : List String)
      → Ordered (map (fetch by_id) ys)
      → Ordered (map (fetch by_id) (insert_id by_id x ys))
  unfolding insert_id
  insert_id-Ordered x [] h = (tt, tt)
  insert_id-Ordered x (y ∷ ys) (all, h) = elim (Bool-cases (less (fetch by_id y) (fetch by_id x))) [
    | inl e ↦
        rw e
          (insert_id-All (fetch by_id y) x ys (less-NotBefore _ _ e) all, insert_id-Ordered x ys h)
    | inr e ↦
        let first = less_not-NotBefore (fetch by_id y) (fetch by_id x) e in
        rw e ((first, All-NotBefore (fetch by_id x) (fetch by_id y) _ first all), (all, h))
  ]

  -- The identifiers are put in the order of their adapters' priorities.
  pub sort_ids-Ordered : (xs : List String) → Ordered (map (fetch by_id) (sort_ids by_id xs))
  unfolding sort_ids
  sort_ids-Ordered [] = tt
  sort_ids-Ordered (x ∷ xs) = insert_id-Ordered x (sort_ids by_id xs) (sort_ids-Ordered xs)

  elem-insert_id :
      (z x : String) (ys : List String) → elem z (insert_id by_id x ys) ≡ elem z (x ∷ ys)
  unfolding insert_id
  elem-insert_id z x [] = refl
  elem-insert_id z x (y ∷ ys) = ground (arith, elem-insert_id z x ys)

  pub elem-sort_ids : (z : String) (xs : List String) → elem z (sort_ids by_id xs) ≡ elem z xs
  unfolding sort_ids
  elem-sort_ids z [] = refl
  elem-sort_ids z (x ∷ xs) =
      ground (arith, elem-insert_id z x (sort_ids by_id xs), elem-sort_ids z xs)

  -- The lists that are sorted, by their class.
  pub lookup-sort_classes :
      (class : String) (m : GoMap (List String))
      → or_empty (lookup class (sort_classes by_id m)) ≡ sort_ids by_id (or_empty (lookup class m))
  unfolding sort_classes lookup sort_ids
  lookup-sort_classes class [] = refl
  lookup-sort_classes class ((k, ids) ∷ m) = elim (Bool-cases (str_eq k class)) [
    | inl e ↦ rw e refl
    | inr e ↦ rw e (lookup-sort_classes class m)
  ]
