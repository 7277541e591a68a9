-- ===== src/Protocol/Taxonomy/Negotiation.antt =====
-- Which adapter a client gets.
use mathlib.Core.Path.{subst}
use cam_server.Base.{
  ◌↔◌, ◌≡◌, sym, ap, ◌∙◌, true, false, String, none, some, List, [], ◌∷◌, map, GoMap, All, lookup,
  elem, arith, Bool-cases, Option-cases, Result-cases, inl, inr, str_eq, eq_iff, ok,
}
use cam_server.Protocol.Taxonomy.{
  AdapterMetadata, Registry, int_less, fetch, or_none, or_empty, supports, supported,
  first_supported, adapters_for_class, negotiate, new_registry, register_all, sort_classes,
  empty_registry,
}
use cam_server.Protocol.Taxonomy.Listed.{IsRegistry, new_registry-IsRegistry}
use cam_server.Protocol.Taxonomy.Sorting.{NotBefore, Ordered, sort_ids-Ordered, lookup-sort_classes}

-- The adapters of a class, in the order of their priorities.
pub new_registry-Ordered :
    (ms : List AdapterMetadata) (r : Registry) (class : String)
    → new_registry ms ≡ ok r
    → Ordered (adapters_for_class class r)
unfolding new_registry adapters_for_class
new_registry-Ordered ms r class done = elim (Result-cases (register_all ms empty_registry)) [
  | inl (why, e) ↦ absurd (ground (arith, e, done))
  | inr (full, e) ↦
      let r' : Registry = record full {
        ids_by_class = sort_classes full.by_id full.ids_by_class;
      } in
      let same : r' ≡ r = ground (arith, e, done) in
      subst (λ q. Ordered (map (fetch q.by_id) (or_empty (lookup class q.ids_by_class)))) same
        (subst (λ ids. Ordered (map (fetch full.by_id) ids))
          (sym (lookup-sort_classes full.by_id class full.ids_by_class))
          (sort_ids-Ordered full.by_id (or_empty (lookup class full.ids_by_class))))
]

module _ (set : List String) (by_id : GoMap AdapterMetadata) where
  -- What the loop over identifiers finds: one of them, supported, and not behind a supported one of a smaller
  -- priority; or nothing, where none is supported.
  first_none :
      (ids : List String) (id : String)
      → first_supported set (map (fetch by_id) ids) ≡ none
      → elem id ids ≡ true
      → supports set (fetch by_id id) ≡ false
  unfolding first_supported
  first_none [] id h there = cc
  first_none (x ∷ xs) id h there = elim (Bool-cases (supports set (fetch by_id x))) [
    | inl e ↦ ground (arith, e, h)
    | inr e ↦ elim (Bool-cases (str_eq x id)) [
      | inl f ↦ ap (λ i. supports set (fetch by_id i)) (sym ((eq_iff x id).0 f)) ∙ e
      | inr f ↦ first_none xs id (ground (arith, e, h)) (ground (arith, f, there))
    ]
  ]

  elem-All :
      (m : AdapterMetadata) (xs : List String) (id : String)
      → All (NotBefore m) (map (fetch by_id) xs)
      → elem id xs ≡ true
      → NotBefore m (fetch by_id id)
  elem-All m [] id all there = cc
  elem-All m (x ∷ xs) id (h, all) there = elim (Bool-cases (str_eq x id)) [
    | inl f ↦ subst (λ i. NotBefore m (fetch by_id i)) ((eq_iff x id).0 f) h
    | inr f ↦ elem-All m xs id all (ground (arith, f, there))
  ]

  int_less_self : (m : AdapterMetadata) → NotBefore m m
  unfolding int_less
  int_less_self m = ground arith

  first_some :
      (ids : List String) (m : AdapterMetadata)
      → Ordered (map (fetch by_id) ids)
      → first_supported set (map (fetch by_id) ids) ≡ some m
      → (x : String) × (elem x ids ≡ true)
        × (fetch by_id x ≡ m)
        × (supports set m ≡ true)
        × ((id : String)
            → elem id ids ≡ true
            → supports set (fetch by_id id) ≡ true
            → NotBefore m (fetch by_id id))
  unfolding first_supported
  first_some [] m ordered h = absurd (cc)
  first_some (x ∷ xs) m (all, ordered) h = elim (Bool-cases (supports set (fetch by_id x))) [
    | inl e ↦
        let it : fetch by_id x ≡ m = ground (arith, e, h) in
        (
          x,
          ground (arith, eq_iff x x),
          it,
          ap (supports set) (sym it) ∙ e,
          λ id there yes_id. elim (Bool-cases (str_eq x id)) [
            | inl f ↦
                subst (λ n. NotBefore m n) (sym it ∙ ap (fetch by_id) ((eq_iff x id).0 f))
                  (int_less_self m)
            | inr f ↦
                subst (λ n. NotBefore n (fetch by_id id)) it
                  (elem-All (fetch by_id x) xs id all (ground (arith, f, there)))
          ],
        )
    | inr e ↦
        let (y, there, it, good, least) = first_some xs m ordered (ground (arith, e, h)) in
        (
          y,
          ground (arith, there),
          it,
          good,
          λ id listed yes_id. elim (Bool-cases (str_eq x id)) [
            | inl f ↦ absurd (
                ground
                  (arith, yes_id, ap (λ i. supports set (fetch by_id i)) ((eq_iff x id).0 f), e))
            | inr f ↦ least id (ground (arith, f, listed)) yes_id
          ],
        )
  ]

-- The adapters that a client can have: registered under their identifier, of the class, and supported.
abbrev pub Candidate : String → List String → Registry → AdapterMetadata → Type 0
Candidate class client r m =
    (lookup m.id r.by_id ≡ some m) × (m.class ≡ class) × (supports (supported client) m ≡ true)

Candidate-listed :
    (class : String) (client : List String) (r : Registry) (m : AdapterMetadata)
    → IsRegistry r
    → Candidate class client r m
    → (elem m.id (or_empty (lookup class r.ids_by_class)) ≡ true) × (fetch r.by_id m.id ≡ m)
Candidate-listed class client r m h (there, of_it, good) =
    (ground (arith, h.listed class m.id, there, of_it, eq_iff m.class class), ground (arith, there))

chosen-Candidate :
    (class : String) (client : List String) (r : Registry) (m : AdapterMetadata)
    → IsRegistry r
    → Ordered (adapters_for_class class r)
    → negotiate class client r ≡ some m
    → Candidate class client r m
      × ((n : AdapterMetadata)
          → Candidate class client r n
          → int_less n.priority m.priority ≡ false)
unfolding negotiate adapters_for_class
chosen-Candidate class client r m h ordered found =
    let ids = or_empty (lookup class r.ids_by_class) in
    let (x, there, it, good, least) = first_some (supported client) r.by_id ids m ordered found in
    elim (Option-cases (lookup x r.by_id)) [
      | inl e ↦ absurd (ground (arith, e, there, h.listed class x))
      | inr (m0, e) ↦
          let same : m0 ≡ m = ap or_none (sym e) ∙ it in
          let registered : lookup m.id r.by_id ≡ some m =
            subst (λ q. lookup q.id r.by_id ≡ some q) same
              (ap (λ i. lookup i r.by_id) (h.own x m0 e) ∙ e) in
          let of_it : m.class ≡ class =
            subst (λ (q : AdapterMetadata). q.class ≡ class) same
              (ground (arith, e, there, h.listed class x, eq_iff m0.class class)) in
          (
            (registered, of_it, good),
            λ n candidate.
                let (listed, is_n) = Candidate-listed class client r n h candidate in
                subst (NotBefore m) is_n
                  (least n.id listed (ap (supports (supported client)) is_n ∙ candidate.2)),
          )
    ]

none-Candidate :
    (class : String) (client : List String) (r : Registry) (n : AdapterMetadata)
    → IsRegistry r
    → negotiate class client r ≡ none
    → ¬ Candidate class client r n
unfolding negotiate adapters_for_class
none-Candidate class client r n h found candidate =
    let (listed, is_n) = Candidate-listed class client r n h candidate in
    let unsupported =
      first_none (supported client) r.by_id (or_empty (lookup class r.ids_by_class)) n.id found
        listed in
    ground (arith, ap (supports (supported client)) is_n, unsupported, candidate.2)

-- In a registry that `NewRegistry` returns, a negotiation that succeeds gives a registered adapter of the
-- class that the client supports, by its wire name or its identifier, and none that could be given has a smaller
-- priority number; it fails exactly if there is no such adapter.
pub negotiate-Candidate :
    (ms : List AdapterMetadata) (r : Registry) (class : String) (client : List String)
    → new_registry ms ≡ ok r
    → ((m : AdapterMetadata)
        → negotiate class client r ≡ some m
        → Candidate class client r m
          × ((n : AdapterMetadata)
              → Candidate class client r n
              → int_less n.priority m.priority ≡ false))
      × ((negotiate class client r ≡ none) ↔ ((n : AdapterMetadata) → ¬ Candidate class client r n))
negotiate-Candidate ms r class client done =
    let h = new_registry-IsRegistry ms r done in
    let ordered = new_registry-Ordered ms r class done in
    (
      λ m found. chosen-Candidate class client r m h ordered found,
      (
        λ found n. none-Candidate class client r n h found,
        λ nobody. elim (Option-cases (negotiate class client r)) [
          | inl e ↦ e
          | inr (m, e) ↦ absurd (nobody m (chosen-Candidate class client r m h ordered e).0)
        ],
      ),
    )
