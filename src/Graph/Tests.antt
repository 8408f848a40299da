-- ===== src/Graph/Tests.antt =====
-- Runs of the graph operations of observer_graph.h on small graphs.
use reaction.Prelude.{
  ◌||◌, ℕ, ◌≡◌, ◌≢◌, ◌⊎◌, nat_beq, not, refl, Bool, true, false, ◌&&◌, none, some, List, [], ◌∷◌,
  nat_eq, mem, insert, find, put, erase,
}
use reaction.Cache.{get_cached_value, cache_value}
use reaction.Exception.{Result, ok, throw, out_of_fuel}
use reaction.Graph.Caches.{get_cached_cycle_result, cache_cycle_result}
use reaction.Graph.State.{
  Graph, Op, ◌>>◌, new_graph, add_node, dependents, link, unlink, add_missing,
}
use reaction.Graph.Search.{dfs, has_cycle}
use reaction.Prelude.Walks.{Walk, here, via}
use reaction.Exception.{ReactionException}
use reaction.Graph.Edges.{Edge}
use reaction.Graph.Invariant.{IsWellFormed, add_node-IsWellFormed}
use reaction.Graph.HasCycle.{has_cycle_lem}
use reaction.Graph.SearchCycle.{Answered}
use reaction.Graph.Search.{dfs_fuel, no_fuel}
use reaction.Graph.Search.Fuel.{dfs_enough_fuel}
use reaction.Graph.Caches.{new_cycle_detection_cache}
use reaction.Graph.Edit.{reset_node}
use reaction.Graph.Edit.Add.{Refused}
use reaction.Graph.Edit.Loop.{AllAlive}
use reaction.Graph.Edit.Transaction.{
  Replaced, RolledBack, targets, update_observers_transactional_lem,
}
use reaction.Cache.Laws.{peek}
use reaction.Graph.Edit.Public.{
  IsSound, IsSound-of_misses, AddedSound, add_observer_lem, reset_node_lem, new_graph_lem,
}
use reaction.Graph.Diamond.{diamond_graph, diamond_graph-IsWellFormed}
use reaction.Graph.Close.{close_node}
use reaction.Graph.Close.Whole.{NodeClosed, close_node_lem}
use reaction.Graph.Batches.{register_active_batch, is_node_in_active_batch}
use reaction.Graph.Batches.Registry.{batches, register_active_batch_lem}
use reaction.Graph.Batches.Release.{unregister_active_batch_lem}
use reaction.Graph.Batches.{unregister_active_batch}
use reaction.Graph.Edit.Stale.{stale_hit_closes_cycle}
use reaction.Graph.Edit.{
  add_observer, update_observers_transactional, for_each, add_observer_internal,
  reset_node_internal,
}

-- Everything that a run of edits computes with.
edits : Unit {0}
unfolding new_graph add_node update_observers_transactional for_each add_observer has_cycle
    get_cached_cycle_result cache_cycle_result get_cached_value cache_value dfs link unlink
    add_missing insert mem find put erase add_observer_internal reset_node_internal
edits = tt

abbrev empty : Graph
empty = new_graph (λ n. true)

abbrev three_nodes : Graph
three_nodes = add_node 3 (add_node 2 (add_node 1 empty))

abbrev depends_on : Graph → ℕ → ℕ → Bool
depends_on g a b = mem b (dependents g a)

abbrev both_ways : Result Graph (Unit {0}) → Bool
both_ways (ok _ g) = depends_on g 1 2 && depends_on g 2 1
both_ways (throw e g) = false
both_ways out_of_fuel = false

-- Node 1 is made to depend on 2, then on 3 instead; node 2 on 1; then node 1 on 2 again.
abbrev swap_back : Op (Unit {0})
swap_back = do
  update_observers_transactional 0 (some 1) (some 2 ∷ [])
  update_observers_transactional 0 (some 1) (some 3 ∷ [])
  update_observers_transactional 0 (some 2) (some 1 ∷ [])
  update_observers_transactional 0 (some 1) (some 2 ∷ [])

-- Without an exception the two nodes depend on one another in the end.
swap_back_makes_a_cycle : both_ways (swap_back three_nodes) ≡ true
unfolding edits
swap_back_makes_a_cycle = refl

three_nodes-IsWellFormed : IsWellFormed three_nodes
unfolding edits
three_nodes-IsWellFormed =
    let w1 = add_node-IsWellFormed 1 empty refl (new_graph_lem (λ n. true)).0 refl in
    let w2 = add_node-IsWellFormed 2 (add_node 1 empty) refl w1 refl in
    add_node-IsWellFormed 3 (add_node 2 (add_node 1 empty)) refl w2 refl

three_nodes-IsSound : IsSound three_nodes
unfolding edits peek
three_nodes-IsSound = IsSound-of_misses three_nodes (λ x y. refl)

all_alive : (ds : List ℕ) → AllAlive three_nodes ds
unfolding edits
all_alive ds t l = refl

-- Node 2 depends on node 1, and the cache says that an edge from 1 to 2 closes no cycle.
abbrev stale_graph : Graph
stale_graph = record (link 2 1 (add_node 2 (add_node 1 empty))) {
  cycle_cache = cache_cycle_result 0 1 2 false new_cycle_detection_cache;
}

update_observers_transactional_lem_example :
    ((g' : Graph) × (update_observers_transactional 0
          (some 1)
          (some 2 ∷ none ∷ some 3 ∷ [])
          three_nodes
        ≡ ok tt g')
      × Replaced 1 (targets (some 2 ∷ none ∷ some 3 ∷ [])) three_nodes g')
    ⊎ ((e : ReactionException) × (g' : Graph) × (update_observers_transactional 0
            (some 1)
            (some 2 ∷ none ∷ some 3 ∷ [])
            three_nodes
          ≡ throw e g')
        × RolledBack 1 (targets (some 2 ∷ none ∷ some 3 ∷ [])) three_nodes e g')
update_observers_transactional_lem_example =
    update_observers_transactional_lem 0 1 three_nodes three_nodes-IsWellFormed
      (three_nodes-IsSound 1) (unfold edits in refl) (some 2 ∷ none ∷ some 3 ∷ [])
      (all_alive (targets (some 2 ∷ none ∷ some 3 ∷ [])))

add_observer_lem_example :
    ((g' : Graph) × (add_observer 0 1 2 three_nodes ≡ ok tt g') × AddedSound 1 2 three_nodes g')
    ⊎ ((e : ReactionException) × (g' : Graph) × (add_observer 0 1 2 three_nodes ≡ throw e g')
        × Refused 1 2 three_nodes e g'
        × IsSound g')
add_observer_lem_example =
    add_observer_lem 0 1 2 three_nodes three_nodes-IsWellFormed three_nodes-IsSound
      (unfold edits in refl) (unfold edits in refl)

has_cycle_lem_example :
    (b : Bool) × (g' : Graph) × (has_cycle 0 1 2 three_nodes ≡ ok b g')
    × Answered 1 2 three_nodes b g'
has_cycle_lem_example =
    has_cycle_lem 0 1 2 three_nodes three_nodes-IsWellFormed (unfold edits in refl)
      (unfold edits in refl) (three_nodes-IsSound 1)

reset_node_lem_example :
    IsWellFormed (reset_node 2 three_nodes)
    × IsSound (reset_node 2 three_nodes)
    × ((x y : ℕ)
        → mem y (dependents (reset_node 2 three_nodes) x)
          ≡ (not (nat_beq 2 x) && mem y (dependents three_nodes x)))
reset_node_lem_example = reset_node_lem 2 three_nodes three_nodes-IsWellFormed

dfs_enough_fuel_example : dfs stale_graph (dfs_fuel stale_graph) 2 [] [] ≢ no_fuel
dfs_enough_fuel_example = dfs_enough_fuel stale_graph 2

stale_hit_closes_cycle_example :
    (g' : Graph) × (add_observer_internal 0 1 2 stale_graph ≡ ok tt g') × Walk (Edge g') 1 1
unfolding edits peek
stale_hit_closes_cycle_example =
    stale_hit_closes_cycle 0 1 2 stale_graph refl refl refl refl refl (via (refl, refl) here)

close_node_lem_example :
    (g' : Graph) × (close_node (some 1) diamond_graph ≡ some g') × NodeClosed 1 diamond_graph g'
close_node_lem_example =
    close_node_lem 1 diamond_graph diamond_graph-IsWellFormed (unfold edits in refl)

register_active_batch_lem_example :
    (mem 9 (batches (register_active_batch 9 (3 ∷ 2 ∷ []) three_nodes) 2) ≡ (
      mem 9 (batches three_nodes 2)
      || (nat_beq 9 9 && (mem 2 (3 ∷ 2 ∷ []) && three_nodes.alive 2))))
    × (is_node_in_active_batch (register_active_batch 9 (3 ∷ 2 ∷ []) three_nodes) 3 ≡ true)
unfolding edits
register_active_batch_lem_example =
    register_active_batch_lem 9 (3 ∷ 2 ∷ []) three_nodes 3 2 9 refl refl

unregister_active_batch_lem_example :
    (mem 9
        (batches (unregister_active_batch 9 (register_active_batch 9 (3 ∷ 2 ∷ []) three_nodes)) 2)
      ≡ mem 9 (batches three_nodes 2))
    × (is_node_in_active_batch
          (unregister_active_batch 9 (register_active_batch 9 (3 ∷ 2 ∷ []) three_nodes))
          2
        ≡ is_node_in_active_batch three_nodes 2)
unfolding edits
unregister_active_batch_lem_example =
    unregister_active_batch_lem 9 (3 ∷ 2 ∷ []) three_nodes 2 9 tt (λ m. refl)
