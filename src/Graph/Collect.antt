-- ===== src/Graph/Collect.antt =====
-- `ObserverGraph::collectObservers` (observer_graph.h) with `ObserverNode::updateDepth`
-- (observer_node.h).
pub mod Visit
pub mod Correct
pub mod Depths
pub mod Whole
use reaction.Prelude.{
  ℕ, zero, suc, ◌+◌, ◌^◌, ◌%◌, max, true, false, Option, none, some, [], ◌∷◌, if◌then◌else◌, nat_eq,
  mem, insert,
}
use reaction.Graph.Caches.{get_cached_immediate_observers, cache_immediate_observers}
use reaction.Graph.State.{Graph, NodeSet, update}

-- `updateDepth`, which both of its branches compute.
unfoldable pub update_depth : ℕ → ℕ → Graph → Graph
unfolding update
update_depth node depth g = record g { depth = update g.depth node (max depth (g.depth node)) }

-- The loop over the immediate observers: an expired one is neither collected nor counted. The
-- second set is `currentObservers` on a cache miss.
unfoldable pub visit_observers : ℕ → NodeSet → NodeSet → NodeSet → Graph → NodeSet × NodeSet × Graph
unfolding update_depth
visit_observers depth [] observers current g = (observers, current, g)
visit_observers depth (ob ∷ obs) observers current g =
    visit_observers depth obs (if g.alive ob then insert ob observers else observers)
      (if g.alive ob then insert ob current else current)
      (if g.alive ob then update_depth ob depth g else g)

-- `cacheImmediateObservers` of what a visit collected.
unfoldable pub store_observers : ℕ → ℕ → NodeSet × NodeSet × Graph → NodeSet × NodeSet × Graph
store_observers now node (observers, current, g) = (
  observers,
  current,
  record g { graph_cache = cache_immediate_observers now node current g.graph_cache },
)

-- The visit, given what the cache answered.
unfoldable pub visit_found :
    ℕ → ℕ → NodeSet → ℕ → Option NodeSet → Graph → NodeSet × NodeSet × Graph
unfolding visit_observers store_observers
visit_found now node observers depth (some current) g =
    let (observers', _, g') = visit_observers depth current observers [] g in
    (observers', current, g')
visit_found now node observers depth none g =
    if mem node g.observer_list
    then store_observers now node (visit_observers depth (g.observers node) observers [] g)
    else (observers, [], g)

-- What the part under the lock leaves: the output set, `currentObservers` and the graph.
unfoldable pub immediate_observers : ℕ → ℕ → NodeSet → ℕ → Graph → NodeSet × NodeSet × Graph
unfolding visit_found
immediate_observers now node observers depth g =
    let (cached, cache) = get_cached_immediate_observers now node g.graph_cache in
    visit_found now node observers depth cached (record g { graph_cache = cache })

-- What a collection passes on: the output set and the graph; `none` if the fuel ran out.
abbrev pub Collected : Type 0
Collected = Option (NodeSet × Graph)

unfoldable pub collect_each :
    (ℕ → NodeSet → Graph → Collected) → NodeSet → NodeSet → Graph → Collected
collect_each rec [] observers g = some (observers, g)
collect_each rec (ob ∷ obs) observers g = elim (g.alive ob) [
  | false ↦ collect_each rec obs observers g
  | true ↦ elim (rec ob observers g) [
    | none ↦ none
    | some (observers', g') ↦ collect_each rec obs observers' g'
  ]
]

-- `collectObservers`; the depth is a `uint16_t`.
unfoldable pub collect_observers : ℕ → ℕ → ℕ → NodeSet → ℕ → Graph → Collected
unfolding collect_each immediate_observers
collect_observers now zero node observers depth g = none
collect_observers now (suc fuel) node observers depth g =
    let (observers', current, g') = immediate_observers now node observers depth g in
    collect_each (λ ob out h. collect_observers now fuel ob out ((depth + 1) % 2 ^ 16) h) current
      observers' g'
