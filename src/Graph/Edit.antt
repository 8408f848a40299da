-- ===== src/Graph/Edit.antt =====
-- The operations of `ObserverGraph` that add and reset dependencies (observer_graph.h).
pub mod Add
pub mod Loop
pub mod Reset
pub mod Transaction
pub mod Public
pub mod Stale
use reaction.Prelude.{
  ℕ, Bool, true, false, not, ◌&&◌, ◌||◌, Option, none, some, List, [], ◌∷◌, if◌then◌else◌, nat_beq,
  nat_eq, mem, put,
}
use reaction.Exception.{
  Result, ok, throw, out_of_fuel, ReactionException, self_observation_exception,
  dependency_cycle_exception,
}
use reaction.Graph.State.{
  Graph, NodePtr, NodeSet, Op, ◌>>=◌, ◌>>◌, modify, contains, dependents, link, add_missing,
  get_name, erase_from_observers, invalidate_caches,
}
use reaction.Graph.Search.{has_cycle}

-- A range-based `for` whose body may throw.
unfoldable pub for_each {ℓ} : {A : Type ℓ} → (A → Op (Unit {0})) → List A → Op (Unit {0})
for_each f [] = ok tt
for_each f (x ∷ xs) = f x >> for_each f xs

-- The end of `addObserver`: throw, or write the edge and run `finish`.
unfoldable pub commit : (Graph → Graph) → ℕ → ℕ → Bool → Op (Unit {0})
commit finish source target true g =
    throw (dependency_cycle_exception (get_name g source) (get_name g target)) g
commit finish source target false g = ok tt (finish (link source target g))

unfoldable pub add_edge : (Graph → Graph) → ℕ → ℕ → ℕ → Op (Unit {0})
unfolding commit
add_edge finish now source target g =
    if nat_beq source target
    then throw (self_observation_exception (get_name g source)) g
    else (has_cycle now source target >>= commit finish source target) (add_missing source target g)

-- `addObserver`
unfoldable pub add_observer : ℕ → ℕ → ℕ → Op (Unit {0})
unfolding add_edge
add_observer = add_edge invalidate_caches

-- `addObserverInternal`: the same, with no cache invalidated.
unfoldable pub add_observer_internal : ℕ → ℕ → ℕ → Op (Unit {0})
unfolding add_edge
add_observer_internal = add_edge (λ g. g)

-- The loop of `resetNode`, `resetNodeInternal` and `closeNodeInternal` over the dependencies.
unfoldable pub detach : ℕ → NodeSet → Graph → Graph
detach node [] g = g
detach node (d ∷ ds) g =
    detach node ds (if g.alive d && mem d g.observer_list then erase_from_observers node d g else g)

-- `resetNodeInternal` of a node that is not null.
unfoldable pub reset_node_internal : ℕ → Graph → Graph
unfolding detach
reset_node_internal node g =
    let g' = detach node (dependents g node) g in
    if contains g node then record g' { dependent_list = put node [] g'.dependent_list } else g

-- `resetNode`
unfoldable pub reset_node : ℕ → Graph → Graph
unfolding reset_node_internal
reset_node node g = invalidate_caches (reset_node_internal node g)

-- `args ? addObserverInternal(node, args) : void()`
unfoldable pub add_argument : ℕ → ℕ → NodePtr → Op (Unit {0})
add_argument now node none = ok tt
add_argument now node (some target) = add_observer_internal now node target

-- The body of the loops that restore dependencies.
unfoldable pub restore_one : ℕ → ℕ → ℕ → Op (Unit {0})
restore_one now node d g = if g.alive d then add_observer_internal now node d g else ok tt g

-- The function that `saveNodeStateForRollback` returns; `saved` is what it captured.
unfoldable pub restore_node_state : ℕ → ℕ → NodeSet → Op (Unit {0})
unfolding restore_one for_each
restore_node_state now node saved g =
    for_each (restore_one now node) saved (reset_node_internal node g)

-- `saveNodeStateForRollback`: the captured set, and the function over it. For a null pointer the
-- function does nothing.
unfoldable pub save_node_state_for_rollback : ℕ → Graph → NodePtr → Op (Unit {0})
unfolding restore_node_state
save_node_state_for_rollback now g none = ok tt
save_node_state_for_rollback now g (some node) = restore_node_state now node (dependents g node)

-- The `catch` block: restore, and throw again. What the restoring throws takes its place.
unfoldable pub roll_back : ℕ → ℕ → NodeSet → Result Graph (Unit {0}) → Result Graph (Unit {0})
unfolding restore_node_state
roll_back now node saved (ok _ g) = ok tt g
roll_back now node saved (throw e g) = (restore_node_state now node saved >> throw e) g
roll_back now node saved out_of_fuel = out_of_fuel

-- `updateObserversTransactional`
unfoldable pub update_observers_transactional : ℕ → NodePtr → List NodePtr → Op (Unit {0})
unfolding roll_back add_argument
update_observers_transactional now none args g = ok tt g
update_observers_transactional now (some node) args g =
    roll_back now node (dependents g node)
      (for_each (add_argument now node) args (reset_node_internal node g))
