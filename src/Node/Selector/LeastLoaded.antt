-- ===== src/Node/Selector/LeastLoaded.antt =====
-- The node that `SelectNode` chooses.
use cam_server.Base.{
  ℕ, ◌+◌, ◌≤◌, ◌<◌, ◌≡◌, ◌⊎◌, inl, inr, refl, Bool, true, false, not, ◌&&◌, none, some, String,
  List, [], ◌∷◌, ◌++◌, All, ltb, ◌==◌, arith, Bool-cases,
}
use cam_server.Node.Selector.{
  NodeInfo, max_int32, stale, wrong_role, select_loop, no_node, select_node,
}

-- A node that may be chosen: its heartbeat is at most ten seconds old and its role is the preferred
-- one, if there is one.
abbrev pub eligible : ℕ → String → NodeInfo → Bool
eligible now prefer_role n = not (stale now n) && not (wrong_role prefer_role n)

-- Each node of a list that may be chosen has at least the given load.
abbrev pub NoLess : ℕ → String → ℕ → List NodeInfo → Type 0
NoLess now prefer_role load nodes =
    All (λ (n : NodeInfo). eligible now prefer_role n ≡ true → load ≤ n.stream_count) nodes

-- The node stands in the list, may be chosen, has less load than each such node before it, and no more
-- load than each such node behind it.
pub record IsLeast (now : ℕ) (prefer_role : String) (nodes : List NodeInfo) (n : NodeInfo)
    : Type 0 where
  pub before : List NodeInfo
  pub behind : List NodeInfo
  pub stands : nodes ≡ before ++ n ∷ behind
  pub may : eligible now prefer_role n ≡ true
  pub less : NoLess now prefer_role (1 + n.stream_count) before
  pub no_more : NoLess now prefer_role n.stream_count behind

module _ (now : ℕ) (prefer_role : String) where
  loop_takes :
      (best n : NodeInfo) (load : ℕ) (nodes : List NodeInfo)
      → (eligible now prefer_role n && ltb n.stream_count load) ≡ true
      → select_loop now prefer_role best load (n ∷ nodes)
        ≡ select_loop now prefer_role n n.stream_count nodes
  unfolding select_loop
  loop_takes best n load nodes h = ground arith

  loop_skips :
      (best n : NodeInfo) (load : ℕ) (nodes : List NodeInfo)
      → (eligible now prefer_role n && ltb n.stream_count load) ≡ false
      → select_loop now prefer_role best load (n ∷ nodes)
        ≡ select_loop now prefer_role best load nodes
  unfolding select_loop
  loop_skips best n load nodes h = ground arith

  -- What the loop ends with: what it began with, or the first node of least load below it.
  abbrev Result : NodeInfo → ℕ → List NodeInfo → NodeInfo × ℕ → Type 0
  Result best load nodes r =
      ((r ≡ (best, load)) × NoLess now prefer_role load nodes)
      ⊎ ((n : NodeInfo) × IsLeast now prefer_role nodes n
          × (n.stream_count < load)
          × (r ≡ (n, n.stream_count)))

  loop_lem :
      (best : NodeInfo) (load : ℕ) (nodes : List NodeInfo)
      → Result best load nodes (select_loop now prefer_role best load nodes)
  unfolding select_loop
  loop_lem best load [] = inl (refl, tt)
  loop_lem best load (x ∷ xs) =
      elim (Bool-cases (eligible now prefer_role x && ltb x.stream_count load)) [
        | inl take ↦ rw (loop_takes best x load xs take) (elim (loop_lem x x.stream_count xs) [
          | inl (same, all) ↦ inr (
            x,
            record {
              before = [];
              behind = xs;
              stands = refl;
              may = ground arith;
              less = tt;
              no_more = all;
            },
            ground arith,
            same,
          )
          | inr (n, w, lower, same) ↦ inr (
            n,
            record {
              before = x ∷ w.before;
              behind = w.behind;
              stands = rw (← w.stands) refl;
              may = w.may;
              less = (λ e. omega arith, w.less);
              no_more = w.no_more;
            },
            ground arith,
            same,
          )
        ])
        | inr skip ↦ rw (loop_skips best x load xs skip) (elim (loop_lem best load xs) [
          | inl (same, all) ↦ inl (same, (λ e. ground arith, all))
          | inr (n, w, lower, same) ↦ inr (
            n,
            record {
              before = x ∷ w.before;
              behind = w.behind;
              stands = rw (← w.stands) refl;
              may = w.may;
              less = (λ e. ground arith, w.less);
              no_more = w.no_more;
            },
            lower,
            same,
          )
        ])
      ]

  -- `SelectNode` returns the first of the least loaded among the nodes with a fresh heartbeat and the
  -- preferred role; it fails only if each of those has 2^31 - 1 streams or more, as where there is
  -- none.
  pub select_node_lem :
      (nodes : List NodeInfo)
      → ((select_node now nodes prefer_role ≡ none) × NoLess now prefer_role max_int32 nodes)
        ⊎ ((n : NodeInfo) × (select_node now nodes prefer_role ≡ some n)
            × IsLeast now prefer_role nodes n)
  unfolding select_node
  select_node_lem nodes = elim (loop_lem no_node max_int32 nodes) [
    | inl (same, all) ↦ inl (rw (same, select_node) refl, all)
    | inr (n, w, lower, same) ↦
        let other : (n.stream_count == max_int32) ≡ false = ground arith in
        inr (n, rw (same, select_node, other) refl, w)
  ]
