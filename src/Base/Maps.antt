-- ===== src/Base/Maps.antt =====
-- Go's `map[string]V` as an association list. The order of the entries stands for the order in
-- which a `range` loop happens to meet them, which Go leaves open.
use Prim.Native.Nat.{◌+◌, ◌≤◌}
use Prim.Native.String.{String}
use mathlib.Core.Bool.{Bool}
use mathlib.Core.List.{List, [], ◌∷◌, map}
use mathlib.Core.Option.{Option, none, some}
use mathlib.Core.Path.{◌≡◌, refl}
use native.Mathlib.Omega.{arith}
use text.Mathlib.Text.{◌==◌ as str_eq}
use text.Mathlib.TextEquality.{eq_iff}
use cam_server.Base.Tests.{if◌then◌else◌}
use cam_server.Base.Lists.{length}

abbrev pub GoMap {ℓ} : Type ℓ → Type ℓ
GoMap V = List (String × V)

module _ {ℓ} {V : Type ℓ} where
  -- `v, ok := m[k]`
  unfoldable pub lookup : String → GoMap V → Option V
  lookup k [] = none
  lookup k ((j, v) ∷ m) = if str_eq j k then some v else lookup k m

  -- `delete(m, k)`
  unfoldable pub delete : String → GoMap V → GoMap V
  delete k [] = []
  delete k ((j, v) ∷ m) = let rest = delete k m in if str_eq j k then rest else (j, v) ∷ rest

  -- `m[k] = v`
  unfoldable pub insert : String → V → GoMap V → GoMap V
  insert k v m = (k, v) ∷ delete k m

  -- Each key stands once, as in every Go map.
  abbrev pub Distinct : GoMap V → Type ℓ
  Distinct [] = Unit
  Distinct ((k, v) ∷ m) = (lookup k m ≡ none) × Distinct m

  pub lookup-delete :
      (k j : String) (m : GoMap V)
      → lookup j (delete k m) ≡ (if str_eq k j then none else lookup j m)
  unfolding lookup delete
  lookup-delete k j [] = ground arith
  lookup-delete k j ((i, v) ∷ m) =
      ground (arith, lookup-delete k j m, eq_iff i k, eq_iff i j, eq_iff k j)

  pub lookup-insert :
      (k j : String) (v : V) (m : GoMap V)
      → lookup j (insert k v m) ≡ (if str_eq k j then some v else lookup j m)
  unfolding lookup insert
  lookup-insert k j v m = ground (arith, lookup-delete k j m)

  pub lookup-insert_self : (k : String) (v : V) (m : GoMap V) → lookup k (insert k v m) ≡ some v
  lookup-insert_self k v m = ground (arith, lookup-insert k k v m, eq_iff k k)

  pub lookup-delete_self : (k : String) (m : GoMap V) → lookup k (delete k m) ≡ none
  lookup-delete_self k m = ground (arith, lookup-delete k k m, eq_iff k k)

  pub Distinct-delete : (k : String) (m : GoMap V) → Distinct m → Distinct (delete k m)
  unfolding delete
  Distinct-delete k [] d = d
  Distinct-delete k ((j, v) ∷ m) d = ground (arith, Distinct-delete k m d.1, lookup-delete k j m)

  pub Distinct-insert : (k : String) (v : V) (m : GoMap V) → Distinct m → Distinct (insert k v m)
  unfolding insert
  Distinct-insert k v m d = (lookup-delete_self k m, Distinct-delete k m d)

  pub delete_absent : (k : String) (m : GoMap V) → lookup k m ≡ none → delete k m ≡ m
  unfolding lookup delete
  delete_absent k [] h = refl
  delete_absent k ((j, v) ∷ m) h = ground (arith, delete_absent k m)

  pub length-delete-le : (k : String) (m : GoMap V) → length (delete k m) ≤ length m
  unfolding delete
  length-delete-le k [] = omega arith
  length-delete-le k ((j, v) ∷ m) = ground (arith, length-delete-le k m)

  pub length-delete :
      (k : String) (v : V) (m : GoMap V)
      → Distinct m
      → lookup k m ≡ some v
      → length (delete k m) + 1 ≡ length m
  unfolding lookup delete
  length-delete k v [] d h = cc
  length-delete k v ((j, w) ∷ m) d h =
      ground (arith, eq_iff j k, delete_absent k m, length-delete k v m d.1)

  -- `for k, v := range m { if drop(v) { delete(m, k) } }`
  unfoldable pub delete_if : (V → Bool) → GoMap V → GoMap V
  delete_if drop [] = []
  delete_if drop ((k, v) ∷ m) =
      let rest = delete_if drop m in if drop v then rest else (k, v) ∷ rest

  -- A value that `drop` spares.
  abbrev pub spared : (V → Bool) → Option V → Option V
  spared drop none = none
  spared drop (some v) = if drop v then none else some v

  pub lookup-delete_if :
      (drop : V → Bool) (k : String) (m : GoMap V)
      → Distinct m
      → lookup k (delete_if drop m) ≡ spared drop (lookup k m)
  unfolding lookup delete_if
  lookup-delete_if drop k [] d = refl
  lookup-delete_if drop k ((j, v) ∷ m) d = ground (arith, eq_iff j k, lookup-delete_if drop k m d.1)

  pub Distinct-delete_if :
      (drop : V → Bool) (m : GoMap V) → Distinct m → Distinct (delete_if drop m)
  unfolding delete_if
  Distinct-delete_if drop [] d = d
  Distinct-delete_if drop ((k, v) ∷ m) d =
      ground (arith, Distinct-delete_if drop m d.1, lookup-delete_if drop k m d.1)

  pub length-delete_if-le : (drop : V → Bool) (m : GoMap V) → length (delete_if drop m) ≤ length m
  unfolding delete_if
  length-delete_if-le drop [] = omega arith
  length-delete_if-le drop ((k, v) ∷ m) = ground (arith, length-delete_if-le drop m)

  -- The values that a `range` loop meets.
  unfoldable pub values : GoMap V → List V
  values [] = []
  values ((k, v) ∷ m) = v ∷ values m

-- The keys that a `range` loop meets.
abbrev pub keys {ℓ} : {V : Type ℓ} → GoMap V → List String
keys m = map (λ e. e.0) m
