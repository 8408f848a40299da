-- ===== src/Factory/Tests.antt =====
-- A new calculation beside a variable and two calculations.
use reaction.Prelude.{
  ℕ, ◌≡◌, refl, Bool, true, false, Option, none, some, [], ◌∷◌, nat_eq, find, mem, put, insert,
  erase,
}
use reaction.Cache.{get_cached_value, cache_value}
use reaction.Graph.State.{
  new_graph, add_node, contains, add_missing, erase_from_observers, link, unlink,
}
use reaction.Graph.Caches.{get_cached_cycle_result, cache_cycle_result}
use reaction.Graph.Batches.{is_node_in_active_batch}
use reaction.Graph.Edit.{
  update_observers_transactional, save_node_state_for_rollback, add_observer_internal,
  reset_node_internal,
}
use reaction.Graph.Search.{has_cycle, dfs}
use reaction.Memory.Tests.{medium}
use reaction.Memory.Impl.{impl_update_value}
use reaction.Source.{std_error, raised, returned, Attempt, finished, failed, no_fuel, set_source}
use reaction.Source.Ends.{Ends}
use reaction.Source.Tests.{store}
use reaction.Factory.{calc, notify_store, set_function}

-- Everything that a new calculation computes with.
makes : Unit {0}
unfolding calc set_source is_node_in_active_batch new_graph find update_observers_transactional
    save_node_state_for_rollback get_cached_cycle_result cache_cycle_result get_cached_value
    cache_value mem put insert erase add_observer_internal has_cycle add_missing reset_node_internal
    erase_from_observers dfs link unlink impl_update_value add_node notify_store
makes = tt

-- Whether a call throws and leaves node 3 in the graph.
leaks : Attempt ℕ → Bool
leaks (finished st) = false
leaks (failed r st) = contains st.graph 3
leaks no_fuel = false

-- When the function throws, there is no handle, but the node stays in the graph.
leak_run : leaks (calc medium 0 1 3 (0 ∷ []) (λ values. raised std_error) store) ≡ true
unfolding makes leaks
leak_run = refl

-- Node 0 gets a function of nothing, and the change reaches node 1, which adds ten.
value_of : Attempt ℕ → ℕ → Option ℕ
value_of (finished st) n = st.value n
value_of (failed r st) n = none
value_of no_fuel n = none

change_run : value_of (set_function medium true 0 4 0 [] (λ values. returned 5) store) 1 ≡ some 15
unfolding makes value_of set_function
change_run = refl
