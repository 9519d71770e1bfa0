-- ===== src/Graph.antt =====
-- Traversal of in-memory graphs: pkg/engine/graph_index.go, graph_reach.go and graph_components.go.
pub mod Components
pub mod Index
pub mod Reach
