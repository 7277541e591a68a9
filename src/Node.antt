-- ===== src/Node.antt =====
-- internal/node: the nodes of the cluster.
pub mod Selector
