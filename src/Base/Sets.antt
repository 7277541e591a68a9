-- ===== src/Base/Sets.antt =====
-- Go's `map[string]bool` as a set of texts, and maps of such sets.
use Prim.Native.String.{String}
use mathlib.Core.Bool.{Bool, true, false, ◌&&◌, ◌||◌}
use mathlib.Core.List.{List, [], ◌∷◌}
use mathlib.Core.Logic.{inl, inr}
use mathlib.Core.Option.{Option, none, some}
use mathlib.Core.Path.{◌≡◌, refl}
use native.Mathlib.Omega.{arith}
use text.Mathlib.Text.{◌==◌ as str_eq}
use text.Mathlib.TextEquality.{eq_iff}
use cam_server.Base.Lists.{All}
use cam_server.Base.Maps.{GoMap, lookup, insert, delete, keys, lookup-insert, lookup-delete}
use cam_server.Base.Tests.{if◌then◌else◌, is_some, Option-cases}

-- A set of texts, `map[string]bool`, and a map of such sets; a missing set is empty.
abbrev pub GoSet : Type 0
GoSet = GoMap Bool

abbrev pub holds : Option Bool → Bool
holds none = false
holds (some b) = b

-- `set[k]`
unfoldable pub contains : String → GoSet → Bool
contains k set = holds (lookup k set)

abbrev pub or_empty : Option GoSet → GoSet
or_empty none = []
or_empty (some set) = set

-- `sets[k]`
unfoldable pub set_at : String → GoMap GoSet → GoSet
set_at k sets = or_empty (lookup k sets)

-- `if sets[k] == nil { sets[k] = make(map[string]bool) }` and `sets[k][x] = true`
unfoldable pub add_to : String → String → GoMap GoSet → GoMap GoSet
add_to k x sets = insert k (insert x true (set_at k sets)) sets

-- `if sets[k] != nil { delete(sets[k], x) }`
unfoldable pub remove_from : String → String → GoMap GoSet → GoMap GoSet
remove_from k x sets = elim (lookup k sets) [
  | none ↦ sets
  | some set ↦ insert k (delete x set) sets
]

pub contains-add_to :
    (k j x y : String) (sets : GoMap GoSet)
    → contains y (set_at j (add_to k x sets))
      ≡ (if str_eq k j && str_eq x y then true else contains y (set_at j sets))
unfolding contains set_at add_to
contains-add_to k j x y sets = ground (
  arith,
  eq_iff k j,
  lookup-insert k j (insert x true (set_at k sets)) sets,
  lookup-insert x y true (set_at k sets),
)

pub contains-remove_from :
    (k j x y : String) (sets : GoMap GoSet)
    → contains y (set_at j (remove_from k x sets))
      ≡ (if str_eq k j && str_eq x y then false else contains y (set_at j sets))
unfolding contains set_at remove_from lookup
contains-remove_from k j x y sets = elim (Option-cases (lookup k sets)) [
  | inl e ↦ ground (arith, eq_iff k j)
  | inr (set, e) ↦
      ground (arith, eq_iff k j, lookup-insert k j (delete x set) sets, lookup-delete x y set)
]

-- Whether a name is in a list.
abbrev pub elem : String → List String → Bool
elem k [] = false
elem k (x ∷ xs) = str_eq x k || elem k xs

pub elem-keys {ℓ} : {V : Type ℓ} (k : String) (m : GoMap V) → elem k (keys m) ≡ is_some (lookup k m)
unfolding lookup
elem-keys k [] = refl
elem-keys k ((j, v) ∷ m) = ground (arith, elem-keys k m)

pub keys-All :
    (P : String → Type 0) (set : GoSet)
    → ((k : String) (b : Bool) → lookup k set ≡ some b → P k)
    → All P (keys set)
unfolding lookup
keys-All P [] h = tt
keys-All P ((k, v) ∷ set) h = (
  h k v (ground (arith, eq_iff k k)),
  keys-All P set (λ j b found. h j (if str_eq k j then v else b) (ground arith)),
)
