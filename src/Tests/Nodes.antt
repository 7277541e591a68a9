-- ===== src/Tests/Nodes.antt =====
-- Two live nodes and a stale one: internal/node/selector.go.
use cam_server.Base.{◌≡◌, ◌⊎◌, none, some, List, [], ◌∷◌}
use cam_server.Node.Selector.{NodeInfo, max_int32, select_node}
use cam_server.Node.Selector.LeastLoaded.{NoLess, IsLeast, select_node_lem}

abbrev busy : NodeInfo
busy = record {
  id = "a";
  http_addr = "10.0.0.1:80";
  role = "master";
  stream_count = 9;
  updated_at = 20000000000;
}

abbrev nodes : List NodeInfo
nodes =
    busy
    ∷ record busy { id = "b"; stream_count = 2 }
    ∷ record busy { id = "c"; stream_count = 0; updated_at = 1 }
    ∷ []

select_node_lem_example :
    ((select_node 21000000000 nodes "master" ≡ none) × NoLess 21000000000 "master" max_int32 nodes)
    ⊎ ((n : NodeInfo) × (select_node 21000000000 nodes "master" ≡ some n)
        × IsLeast 21000000000 "master" nodes n)
select_node_lem_example = select_node_lem 21000000000 "master" nodes
