-- ===== src/Batch/Calls/Tests.antt =====
-- `batchExecute` on the graph of a variable and two calculations
-- (include/reaction/factory/reactive_factory.h).
use reaction.Prelude.{ℕ, ◌≡◌, ◌≢◌, refl, List, [], ◌∷◌, nat_eq, mem, insert, find, put, arith}
use reaction.Graph.State.{new_graph}
use reaction.Graph.Diamond.{
  diamond_graph, diamond_graph-IsWellFormed, diamond_graph-IsCacheRight, diamond_graph-IsLevelled,
  small_rank,
}
use reaction.Graph.Batches.{register_active_batch, unregister_active_batch, is_node_in_active_batch}
use reaction.Graph.Collect.{collect_observers}
use reaction.Cache.{get_cached_value, cache_value}
use reaction.Graph.Caches.{get_cached_immediate_observers, cache_immediate_observers}
use reaction.Propagation.{State, var_node, notify, set_value, changed_no_notify}
use reaction.Propagation.Correct.{IsSettled}
use reaction.Propagation.Tests.{
  kinds, diamond, start, rank, diamond-IsSensible, rank_falls, start-IsSettled, start_values,
}
use reaction.Assign.{
  Ending, returned, thrown, undefined_behaviour, no_fuel, pre_decrement, steps, new_value,
  has_meaning, react_change,
}
use reaction.Batch.{order_nodes, change_nodes}
use reaction.Batch.Order.{last_write}
use reaction.Batch.Tests.{writes_fit}
use reaction.Batch.Calls.{all_sets, World, sets, changes, batch_execute}
use reaction.Batch.Calls.Twice.{applied_twice_lem}
use reaction.Batch.Calls.Immediate.{batch_execute_lem}

abbrev start_world : World
start_world = record { graph = diamond_graph; state = start }

applied_twice_lem_example :
    (y : World) × (s : State ℕ) × (batch_execute 32 diamond 3 0 77
        (changes 0 (steps pre_decrement) ∷ [])
        start_world
      ≡ returned tt y)
    × IsSettled diamond s
    × (s.value 0 ≡ 2)
    × (y.state.value 0 ≡ 1)
    × ((m : ℕ) → m ≢ 0 → y.state.value m ≡ s.value m)
unfolding new_value new_graph has_meaning
applied_twice_lem_example =
    applied_twice_lem 32 diamond rank 3 0 77 (steps pre_decrement) 0 start_world diamond-IsSensible
      (record { falls = rank_falls }) (omega arith) refl refl refl start-IsSettled

batch_execute_lem_example :
    (x : World) × (batch_execute 32 diamond 3 0 77 (all_sets ((0, 4) ∷ (0, 9) ∷ [])) start_world
      ≡ returned tt x)
    × IsSettled diamond x.state
    × ((m : ℕ)
        → kinds m ≡ var_node
        → x.state.value m ≡ last_write diamond ((0, 4) ∷ (0, 9) ∷ []) m (start_values m))
    × ((m : ℕ) → is_node_in_active_batch x.graph m ≡ is_node_in_active_batch diamond_graph m)
unfolding new_graph mem find
batch_execute_lem_example =
    batch_execute_lem 32 diamond 3 diamond_graph rank diamond_graph-IsWellFormed
      diamond_graph-IsCacheRight diamond_graph-IsLevelled
      (record { falls = rank_falls; small = small_rank }) 0 77 ((0, 4) ∷ (0, 9) ∷ []) start
      writes_fit diamond-IsSensible (λ n u. refl) start-IsSettled tt (λ m. refl)

values_of : Ending World (Unit {0}) → List ℕ
values_of (returned _ x) = x.state.value 0 ∷ x.state.value 1 ∷ x.state.value 2 ∷ []
values_of (thrown e x) = []
values_of undefined_behaviour = []
values_of no_fuel = []

-- `--x` in a batch takes 2 from x, and the calculations are left as after the first decrement.
twice_run :
    values_of (batch_execute 32 diamond 3 0 77 (changes 0 (steps pre_decrement) ∷ []) start_world)
    ≡ 1 ∷ 3 ∷ 5 ∷ []
unfolding values_of batch_execute new_graph mem find insert put register_active_batch
    unregister_active_batch notify changed_no_notify set_value react_change change_nodes order_nodes
twice_run = refl

once_run : values_of (batch_execute 32 diamond 3 0 77 (sets 0 2 ∷ []) start_world) ≡ 2 ∷ 3 ∷ 5 ∷ []
unfolding values_of batch_execute new_graph mem find insert put register_active_batch
    unregister_active_batch changed_no_notify set_value collect_observers
    get_cached_immediate_observers get_cached_value cache_immediate_observers cache_value
    change_nodes order_nodes
once_run = refl
