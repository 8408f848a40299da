-- ===== src/Graph.antt =====
-- include/reaction/graph/observer_graph.h and include/reaction/cache/graph_cache.h: the dependency
-- graph of the reactive nodes.
pub mod Caches
pub mod State
pub mod Search
pub mod Edges
pub mod Edit
pub mod Close
pub mod Batches
pub mod Collect
pub mod Invariant
pub mod HasCycle
pub mod SearchCycle
pub mod Diamond
pub mod Tests
