-- ===== src/Source/Tests.antt =====
-- A new source for a node of the graph of a variable and two calculations.
use reaction.Prelude.{
  ℕ, ◌+◌, ◌≡◌, refl, Bool, true, false, not, Option, none, some, List, [], ◌∷◌, nat_eq, nat_beq,
  nat_beq_iff, find, get_or, mem, put, insert, erase,
}
use mathlib.Core.Bool.{true≢false}
use reaction.Cache.{get_cached_value, cache_value}
use reaction.Cache.Laws.{peek}
use reaction.Graph.State.{new_graph, dependents, add_missing, erase_from_observers, link, unlink}
use reaction.Graph.Caches.{get_cached_cycle_result, cache_cycle_result}
use reaction.Graph.Batches.{is_node_in_active_batch}
use reaction.Graph.Edit.{
  update_observers_transactional, save_node_state_for_rollback, add_observer_internal,
  reset_node_internal,
}
use reaction.Graph.Search.{has_cycle, dfs}
use reaction.Graph.Edit.Public.{IsSound, IsSound-of_misses}
use reaction.Graph.Diamond.{diamond_graph, diamond_graph-IsWellFormed}
use reaction.Memory.Impl.{differs, impl_update_value}
use reaction.Memory.Tests.{medium}
use reaction.Source.{
  foreign_error, returned, raised, Fun, Store, Attempt, finished, failed, no_fuel, set_source,
}
use reaction.Source.Rollback.{set_source_lem}
use reaction.Source.Ends.{Ends}

-- The sum of node 0 and ten, and a function that throws.
abbrev pub plus_ten : Fun ℕ
plus_ten values = returned (get_or (values 0) 0 + 10)

abbrev pub throws : Fun ℕ
throws values = raised foreign_error

abbrev pub store : Store ℕ
store = record { graph = diamond_graph; value = λ n. some (n + 3); fun = λ n. some plus_ten }

pub diamond_graph-IsSound : IsSound diamond_graph
unfolding new_graph peek find
diamond_graph-IsSound = IsSound-of_misses diamond_graph (λ x y. refl)

pub tells_apart : (a b : ℕ) → differs medium.ne a b ≡ false → a ≡ b
unfolding differs
tells_apart a b e = (nat_beq_iff a b).0 (positive (nat_beq a b) e)
  where
    positive : (t : Bool) → not t ≡ false → t ≡ true
    positive true e = refl
    positive false e = absurd (true≢false e)

node_lives : store.graph.alive 2 ≡ true
unfolding new_graph
node_lives = refl

set_source_lem_example :
    Ends 2 store (0 ∷ []) plus_ten (set_source medium true 0 2 (0 ∷ []) plus_ten store)
unfolding is_node_in_active_batch new_graph find
set_source_lem_example =
    set_source_lem medium 0 2 store diamond_graph-IsWellFormed (diamond_graph-IsSound 2) node_lives
      (0 ∷ []) plus_ten refl tells_apart

-- What is left of the store after a call: the value and the dependencies of node 2.
value_left : Attempt ℕ → Option ℕ
value_left (finished st) = st.value 2
value_left (failed r st) = st.value 2
value_left no_fuel = none

dependencies_left : Attempt ℕ → List ℕ
dependencies_left (finished st) = dependents st.graph 2
dependencies_left (failed r st) = dependents st.graph 2
dependencies_left no_fuel = []

-- Everything that a new source computes with.
runs : Unit {0}
unfolding set_source is_node_in_active_batch new_graph find update_observers_transactional
    save_node_state_for_rollback get_cached_cycle_result cache_cycle_result get_cached_value
    cache_value mem put insert erase add_observer_internal has_cycle add_missing reset_node_internal
    erase_from_observers dfs link unlink impl_update_value
runs = tt

new_value_run : value_left (set_source medium true 0 2 (0 ∷ []) plus_ten store) ≡ some 13
unfolding runs value_left
new_value_run = refl

-- A foreign exception leaves the new dependencies with the old value.
foreign_run : dependencies_left (set_source medium true 0 2 (0 ∷ []) throws store) ≡ 0 ∷ []
unfolding runs dependencies_left
foreign_run = refl

-- A cycle is refused, and the dependencies are as before.
cycle_run : dependencies_left (set_source medium true 0 2 (0 ∷ 2 ∷ []) plus_ten store) ≡ 0 ∷ 1 ∷ []
unfolding runs dependencies_left
cycle_run = refl
