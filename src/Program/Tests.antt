-- ===== src/Program/Tests.antt =====
-- A program on the graph of a variable and two calculations (include/reaction/core/react.h,
-- include/reaction/factory/reactive_factory.h).
use reaction.Prelude.{ℕ, ◌≡◌, refl, Bool, List, [], ◌∷◌, nat_eq, mem, insert, find, put, arith}
use reaction.Graph.State.{new_graph}
use reaction.Graph.Diamond.{
  diamond_graph, diamond_graph-IsWellFormed, diamond_graph-IsCacheRight, diamond_graph-IsLevelled,
  small_rank,
}
use reaction.Graph.Batches.{register_active_batch, unregister_active_batch}
use reaction.Graph.Batches.Registry.{batches}
use reaction.Graph.Collect.{collect_observers}
use reaction.Cache.{get_cached_value, cache_value}
use reaction.Graph.Caches.{get_cached_immediate_observers, cache_immediate_observers}
use reaction.Propagation.{notify, set_value, changed_no_notify}
use reaction.Propagation.Tests.{
  kinds, diamond, start, rank, diamond-IsSensible, rank_falls, start-IsSettled, start_values,
}
use reaction.Propagation.{var_node}
use reaction.Assign.{
  Ending, returned, thrown, undefined_behaviour, no_fuel, pre_decrement, steps, react_change,
  has_meaning,
}
use reaction.Batch.{order_nodes, change_nodes}
use reaction.Batch.Tests.{writes_fit}
use reaction.Batch.Calls.{World, sets, changes, all_sets, batch_execute}
use reaction.Program.{Action, calls, executes, act_all}
use reaction.Program.Sound.{IsSound}
use reaction.Program.Correct.{leaves_all, act_all_lem}

abbrev start_world : World
start_world = record { graph = diamond_graph; state = start }

abbrev live : ℕ → Bool
live n = diamond_graph.alive n

abbrev owners : ℕ → List ℕ
owners n = batches diamond_graph n

abbrev actions : List Action
actions =
    calls (sets 0 5)
    ∷ executes 0 77 ((0, 4) ∷ (0, 9) ∷ [])
    ∷ calls (changes 0 (steps pre_decrement))
    ∷ []

start_world-IsSound : IsSound diamond rank live owners start_world
unfolding new_graph
start_world-IsSound = record {
  sound = record {
    well_formed = diamond_graph-IsWellFormed;
    right = diamond_graph-IsCacheRight;
    levelled = diamond_graph-IsLevelled;
    ranked = record { falls = rank_falls; small = small_rank };
    same = λ n u. refl;
    alive = λ n. refl;
  };
  once = tt;
  registry = λ n a. refl;
  settled = start-IsSettled;
}

act_all_lem_example :
    (y : World) × (act_all 32 diamond 3 actions start_world ≡ returned tt y)
    × IsSound diamond rank live owners y
    × ((m : ℕ)
        → kinds m ≡ var_node
        → y.state.value m ≡ leaves_all 32 diamond actions m (start_values m))
unfolding new_graph mem find has_meaning
act_all_lem_example =
    act_all_lem 32 diamond rank live 3 owners diamond-IsSensible actions start_world
      (
        (refl, omega arith, refl),
        ((writes_fit, λ n. refl), (((refl, omega arith, refl), refl), tt)),
      )
      start_world-IsSound

values_of : Ending World (Unit {0}) → List ℕ
values_of (returned _ x) = x.state.value 0 ∷ x.state.value 1 ∷ x.state.value 2 ∷ []
values_of (thrown e x) = []
values_of undefined_behaviour = []
values_of no_fuel = []

program_run : values_of (act_all 32 diamond 3 actions start_world) ≡ 8 ∷ 9 ∷ 17 ∷ []
unfolding values_of act_all batch_execute new_graph mem find insert put register_active_batch
    unregister_active_batch notify changed_no_notify set_value react_change change_nodes order_nodes
    collect_observers get_cached_immediate_observers get_cached_value cache_immediate_observers
    cache_value all_sets
program_run = refl
