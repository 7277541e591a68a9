-- ===== src/Node/Selector.antt =====
-- internal/node/selector.go: the choice of a node for a viewer, and `NodeInfo` of
-- internal/node/registry.go. A stream count is the length of a list of streams, so no negative
-- number.
pub mod LeastLoaded
use cam_server.Base.{
  ℕ, ◌+◌, Bool, true, false, not, ◌&&◌, Option, none, some, String, List, [], ◌∷◌, ltb, ◌==◌,
  str_eq, if◌then◌else◌,
}

-- `NodeInfo`
pub record NodeInfo : Type 0 where
  pub id : String
  pub http_addr : String
  pub role : String
  pub stream_count : ℕ
  pub updated_at : ℕ

-- `math.MaxInt32`
abbrev pub max_int32 : ℕ
max_int32 = 2147483647

-- `now.Sub(n.UpdatedAt) > staleThreshold`
abbrev pub stale : ℕ → NodeInfo → Bool
stale now n = ltb (n.updated_at + 10000000000) now

abbrev pub wrong_role : String → NodeInfo → Bool
wrong_role prefer_role n = not (str_eq prefer_role "") && not (str_eq n.role prefer_role)

-- The loop of `SelectNode`, with the best node so far and its load.
unfoldable pub select_loop : ℕ → String → NodeInfo → ℕ → List NodeInfo → NodeInfo × ℕ
select_loop now prefer_role best best_load [] = (best, best_load)
select_loop now prefer_role best best_load (n ∷ nodes) =
    let kept = select_loop now prefer_role best best_load nodes in
    if stale now n
    then kept
    else if wrong_role prefer_role n
    then kept
    else if ltb n.stream_count best_load
    then select_loop now prefer_role n n.stream_count nodes
    else kept

abbrev pub no_node : NodeInfo
no_node = record { id = ""; http_addr = ""; role = ""; stream_count = 0; updated_at = 0 }

-- `SelectNode`; `none` is `ErrNoAvailableNode`.
unfoldable pub select_node : ℕ → List NodeInfo → String → Option NodeInfo
select_node now nodes prefer_role =
    let (best, best_load) = select_loop now prefer_role no_node max_int32 nodes in
    if best_load == max_int32 then none else some best
