-- ===== src/Graph/Close.antt =====
-- `ObserverGraph::closeNode` and its helpers (observer_graph.h).
pub mod Leaf
pub mod Cascade
pub mod Loop
pub mod Whole
use reaction.Prelude.{
  ℕ, zero, suc, Bool, true, false, ◌&&◌, ◌||◌, Option, none, some, List, [], ◌∷◌, if◌then◌else◌,
  nat_beq, nat_eq, mem, insert, erase, put, remove, length,
}
use reaction.Graph.State.{Graph, NodePtr, NodeSet, contains, dependents, lock}
use reaction.Graph.Edit.{detach}

-- The loop over the observers: each forgets the dependency on the node.
unfoldable pub forget : ℕ → NodeSet → Graph → Graph
forget node [] g = g
forget node (ob ∷ obs) g = forget node obs (
    if g.alive ob && contains g ob
    then record g { dependent_list = put ob (erase node (dependents g ob)) g.dependent_list }
    else g)

-- The first half of `closeNodeInternal`: the node observes others.
unfoldable pub close_dependencies : ℕ → Graph → Graph
unfolding detach
close_dependencies node g =
    let g' = detach node (dependents g node) g in
    if contains g node then record g' { dependent_list = remove node g'.dependent_list } else g

-- The second half: others observe the node.
unfoldable pub close_observers : ℕ → Graph → Graph
unfolding forget
close_observers node g =
    let g' = forget node (g.observers node) g in
    if mem node g.observer_list
    then record g' { observer_list = erase node g'.observer_list }
    else g

-- `closeNodeInternal` of a node that is not null.
unfoldable pub close_node_internal : ℕ → Graph → Graph
unfolding close_dependencies close_observers
close_node_internal node g =
    let g' = close_observers node (close_dependencies node g) in
    record g' { name_list = remove node g'.name_list }

-- What a cascade passes on: the closed nodes and the graph; `none` if the fuel ran out.
abbrev pub Cascade : Type 0
Cascade = Option (NodeSet × Graph)

unfoldable pub cascade_observers :
    (NodePtr → NodeSet → Graph → Cascade) → NodeSet → NodeSet → Graph → Cascade
cascade_observers rec [] closed g = some (closed, g)
cascade_observers rec (ob ∷ obs) closed g = elim (rec (lock g ob) closed g) [
  | none ↦ none
  | some (closed', g') ↦ cascade_observers rec obs closed' g'
]

unfoldable pub close_last : ℕ → Cascade → Cascade
unfolding close_node_internal
close_last node none = none
close_last node (some (closed, g)) = some (closed, close_node_internal node g)

-- `cascadeCloseDependents`; the observers are copied before the loop.
unfoldable pub cascade_close_dependents : ℕ → NodePtr → NodeSet → Graph → Cascade
unfolding cascade_observers close_last
cascade_close_dependents zero pointer closed g = none
cascade_close_dependents (suc fuel) none closed g = some (closed, g)
cascade_close_dependents (suc fuel) (some node) closed g =
    let observer_lists = if mem node g.observer_list then g.observers node else [] in
    let deeper =
      close_last node
        (cascade_observers (cascade_close_dependents fuel) observer_lists (insert node closed) g) in
    if mem node closed then some (closed, g) else deeper

-- Each call but the last closes one more key of `m_observerList`.
abbrev pub close_fuel : Graph → ℕ
close_fuel g = suc (suc (length g.dependent_list))

-- `closeNode`
unfoldable pub close_node : NodePtr → Graph → Option Graph
close_node none g = some g
close_node (some node) g = elim (cascade_close_dependents (close_fuel g) (some node) [] g) [
  | none ↦ none
  | some (closed, g') ↦ some g'
]
