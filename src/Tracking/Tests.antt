-- ===== src/Tracking/Tests.antt =====
-- A function whose dependencies turn on what it reads.
use reaction.Prelude.{
  ℕ, ◌+◌, ◌≡◌, refl, Option, none, some, List, [], ◌∷◌, nat_eq, ltb, if◌then◌else◌, find, mem, put,
  insert, erase,
}
use reaction.Cache.{invalidate_all_entries, get_cached_value, cache_value}
use reaction.Graph.State.{
  new_graph, dependents, add_missing, erase_from_observers, link, unlink, invalidate_caches,
}
use reaction.Graph.Caches.{get_cached_cycle_result, cache_cycle_result}
use reaction.Graph.Batches.{is_node_in_active_batch}
use reaction.Graph.Edit.{
  update_observers_transactional, save_node_state_for_rollback, add_observer, reset_node_internal,
}
use reaction.Graph.Search.{has_cycle, dfs}
use reaction.Memory.Tests.{medium}
use reaction.Memory.Impl.{impl_update_value}
use reaction.Source.{Attempt, finished, failed, no_fuel}
use reaction.Source.Tests.{store}
use reaction.Tracking.{Program, gives, reads, tracked, set_tracked}

-- Node 0, and node 1 as well if the value of node 0 is below the limit.
abbrev choice : ℕ → Program ℕ
choice limit = reads 0 λ v. if ltb v limit then reads 1 (λ u. gives (v + u)) else gives v

-- The dependencies and the value of node 2 after a call that returned.
outcome : Attempt ℕ → List ℕ × Option ℕ
outcome (finished st) = (dependents st.graph 2, st.value 2)
outcome (failed r st) = ([], none)
outcome no_fuel = ([], none)

-- Everything that a tracked run computes with.
tracks : Unit {0}
unfolding set_tracked tracked is_node_in_active_batch new_graph find update_observers_transactional
    save_node_state_for_rollback get_cached_cycle_result cache_cycle_result get_cached_value
    cache_value mem put insert erase add_observer has_cycle add_missing reset_node_internal
    erase_from_observers dfs link unlink impl_update_value invalidate_caches invalidate_all_entries
tracks = tt

both_run : outcome (set_tracked medium 0 2 (choice 4) store) ≡ (1 ∷ 0 ∷ [], some 7)
unfolding outcome tracks
both_run = refl

one_run : outcome (set_tracked medium 0 2 (choice 3) store) ≡ (0 ∷ [], some 3)
unfolding outcome tracks
one_run = refl
