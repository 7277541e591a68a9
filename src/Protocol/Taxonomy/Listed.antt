-- ===== src/Protocol/Taxonomy/Listed.antt =====
-- Each class lists exactly the identifiers of the adapters that are registered for it.
use mathlib.Core.Path.{subst}
use cam_server.Base.{
  ◌≡◌, refl, ap, ◌∙◌, Bool, false, ◌||◌, String, Option, none, some, List, [], ◌∷◌, ◌++◌, lookup,
  lookup-insert, elem, arith, Option-cases, Result-cases, inl, inr, str_eq, eq_iff, ok,
}
use cam_server.Protocol.Taxonomy.{
  AdapterMetadata, Registry, or_empty, add_adapter, register, register_all, sort_classes,
  empty_registry, new_registry,
}
use cam_server.Protocol.Taxonomy.Sorting.{elem-sort_ids, lookup-sort_classes}

-- Whether an adapter is there, and of the class.
abbrev pub of_class : String → Option AdapterMetadata → Bool
of_class class none = false
of_class class (some m) = str_eq m.class class

pub record IsRegistry (r : Registry) : Type 0 where
  pub listed :
      (class id : String)
      → elem id (or_empty (lookup class r.ids_by_class)) ≡ of_class class (lookup id r.by_id)
  pub own : (id : String) (m : AdapterMetadata) → lookup id r.by_id ≡ some m → m.id ≡ id

elem-snoc : (z y : String) (xs : List String) → elem z (xs ++ y ∷ []) ≡ (elem z xs || str_eq y z)
elem-snoc z y [] = ground arith
elem-snoc z y (x ∷ xs) = ground (arith, elem-snoc z y xs)

add_adapter-IsRegistry :
    (m : AdapterMetadata) (r : Registry)
    → IsRegistry r
    → lookup m.id r.by_id ≡ none
    → IsRegistry (add_adapter m r)
unfolding add_adapter
add_adapter-IsRegistry m r h free = record {
  listed = λ class id.
      let ids = or_empty (lookup m.class r.ids_by_class) in
      ground (
        arith,
        free,
        lookup-insert m.class class (ids ++ m.id ∷ []) r.ids_by_class,
        lookup-insert m.id id m r.by_id,
        elem-snoc id m.id ids,
        h.listed class id,
        h.listed m.class id,
        eq_iff m.class class,
        eq_iff m.id id,
      );
  own = λ id n there.
      ground (arith, there, lookup-insert m.id id m r.by_id, h.own id n, eq_iff m.id id);
}

register-IsRegistry :
    (m : AdapterMetadata) (r r' : Registry) → IsRegistry r → register m r ≡ ok r' → IsRegistry r'
unfolding register
register-IsRegistry m r r' h done = elim (Option-cases (lookup m.id r.by_id)) [
  | inr (n, e) ↦ absurd (ground (arith, e, done))
  | inl e ↦
      let same : add_adapter m r ≡ r' = ground (arith, e, done) in
      subst IsRegistry same (add_adapter-IsRegistry m r h e)
]

register_all-IsRegistry :
    (ms : List AdapterMetadata) (r r' : Registry)
    → IsRegistry r
    → register_all ms r ≡ ok r'
    → IsRegistry r'
unfolding register_all
register_all-IsRegistry [] r r' h done = subst IsRegistry (ground (arith, done)) h
register_all-IsRegistry (m ∷ ms) r r' h done = elim (Result-cases (register m r)) [
  | inl (why, e) ↦ absurd (ground (arith, e, done))
  | inr (next, e) ↦
      register_all-IsRegistry ms next r' (register-IsRegistry m r next h e)
        (ground (arith, e, done))
]

empty-IsRegistry : IsRegistry empty_registry
unfolding lookup
empty-IsRegistry = record { listed = λ class id. refl; own = λ id m there. absurd (cc) }

-- A registry that `NewRegistry` returns lists under each class exactly the identifiers of its adapters of that
-- class, and holds each adapter under its own identifier.
pub new_registry-IsRegistry :
    (ms : List AdapterMetadata) (r : Registry) → new_registry ms ≡ ok r → IsRegistry r
unfolding new_registry
new_registry-IsRegistry ms r done = elim (Result-cases (register_all ms empty_registry)) [
  | inl (why, e) ↦ absurd (ground (arith, e, done))
  | inr (full, e) ↦
      let h = register_all-IsRegistry ms empty_registry full empty-IsRegistry e in
      let same : record full { ids_by_class = sort_classes full.by_id full.ids_by_class } ≡ r =
        ground (arith, e, done) in
      subst IsRegistry same (record {
        listed = λ class id.
            ap (elem id) (lookup-sort_classes full.by_id class full.ids_by_class)
            ∙ elem-sort_ids full.by_id id (or_empty (lookup class full.ids_by_class))
            ∙ h.listed class id;
        own = h.own;
      })
]
