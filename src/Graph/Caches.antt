-- ===== src/Graph/Caches.antt =====
-- include/reaction/cache/graph_cache.h: the three caches of the graph.
use reaction.Prelude.{ℕ, ◌*◌, Bool, Option, none, some, List, nat_eq, pair_eq}
use reaction.Cache.{Cache, new_cache, get_cached_value, cache_value}

-- One minute on the steady clock, in nanoseconds.
abbrev pub minute : ℕ
minute = 60 * 1000000000

-- `NodeMetrics`
pub record NodeMetrics : Type 0 where
  pub exists : Bool
  pub observer_count : ℕ
  pub dependent_count : ℕ
  pub max_depth : ℕ

-- `GraphTraversalCache`: a node's immediate observers.
abbrev pub GraphTraversalCache : Type 0
GraphTraversalCache = Cache ℕ (List ℕ)

unfoldable pub new_graph_traversal_cache : GraphTraversalCache
unfolding new_cache
new_graph_traversal_cache = new_cache 500 (5 * minute)

unfoldable pub get_cached_immediate_observers :
    ℕ → ℕ → GraphTraversalCache → Option (List ℕ) × GraphTraversalCache
get_cached_immediate_observers now node c = get_cached_value now node c

unfoldable pub cache_immediate_observers :
    ℕ → ℕ → List ℕ → GraphTraversalCache → GraphTraversalCache
cache_immediate_observers now node observers c = cache_value now node observers c

-- `CycleDetectionCache`: whether an edge from a source to a target closes a cycle.
abbrev pub CycleDetectionCache : Type 0
CycleDetectionCache = Cache (ℕ × ℕ) Bool

unfoldable pub new_cycle_detection_cache : CycleDetectionCache
unfolding new_cache
new_cycle_detection_cache = new_cache 1000 (10 * minute)

unfoldable pub get_cached_cycle_result :
    ℕ → ℕ → ℕ → CycleDetectionCache → Option Bool × CycleDetectionCache
get_cached_cycle_result now source target c = get_cached_value now (source, target) c

unfoldable pub cache_cycle_result : ℕ → ℕ → ℕ → Bool → CycleDetectionCache → CycleDetectionCache
cache_cycle_result now source target has_cycle c = cache_value now (source, target) has_cycle c

-- `NodeMetricsCache`
abbrev pub NodeMetricsCache : Type 0
NodeMetricsCache = Cache ℕ NodeMetrics

unfoldable pub new_node_metrics_cache : NodeMetricsCache
unfolding new_cache
new_node_metrics_cache = new_cache 800 (8 * minute)

unfoldable pub get_cached_node_metrics :
    ℕ → ℕ → NodeMetricsCache → Option NodeMetrics × NodeMetricsCache
get_cached_node_metrics now node c = get_cached_value now node c

unfoldable pub get_cached_node_exists : ℕ → ℕ → NodeMetricsCache → Option Bool × NodeMetricsCache
unfolding get_cached_node_metrics
get_cached_node_exists now node c =
    let (found, c') = get_cached_node_metrics now node c in
    (elim found [ none ↦ none | some metrics ↦ some metrics.exists ], c')

unfoldable pub cache_node_metrics : ℕ → ℕ → Bool → ℕ → ℕ → ℕ → NodeMetricsCache → NodeMetricsCache
cache_node_metrics now node exists observers dependents depth c =
    let metrics : NodeMetrics = record {
      exists = exists;
      observer_count = observers;
      dependent_count = dependents;
      max_depth = depth;
    } in
    cache_value now node metrics c
