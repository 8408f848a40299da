-- ===== src/Batch/Tests.antt =====
-- A batch on the graph of a variable and two calculations.
use reaction.Prelude.{
  ℕ, zero, suc, ◌<◌, ◌≡◌, refl, true, false, some, List, [], ◌∷◌, nat_eq, pair_eq, nat_beq, mem,
  insert, find, put, arith, ◌||◌, if◌then◌else◌,
}
use reaction.Exception.{ok, throw, out_of_fuel}
use reaction.Graph.State.{Graph, new_graph}
use reaction.Propagation.{State, var_node}
use reaction.Propagation.Correct.{IsSettled}
use reaction.Propagation.Tests.{
  kinds, diamond, start, rank, diamond-IsSensible, rank_falls, start-IsSettled, start_values,
}
use reaction.Graph.Diamond.{
  diamond_graph, diamond_graph-IsWellFormed, diamond_graph-IsCacheRight, diamond_graph-IsLevelled,
  small_rank,
}
use reaction.Cache.{get_cached_value, cache_value}
use reaction.Graph.Caches.{get_cached_immediate_observers, cache_immediate_observers}
use reaction.Graph.State.{NodeSet}
use reaction.Graph.Batches.{register_active_batch}
use reaction.Graph.Collect.{collect_observers}
use reaction.Graph.Collect.Whole.{IsCollected, collect_observers_lem}
use reaction.Propagation.{set_value, changed_no_notify}
use reaction.Batch.{Batch, new_batch, execute}
use reaction.Batch.Order.{last_write}
use reaction.Batch.Whole.{batch_lem}

pub writes_fit :
    (n : ℕ)
    → mem n (0 ∷ 0 ∷ []) ≡ true
    → (diamond_graph.alive n ≡ true) × (rank n < 3) × (kinds n ≡ var_node)
unfolding mem new_graph
writes_fit zero m = (refl, omega arith, refl)
writes_fit (suc n) m = absurd (other n m)
  where
    other : (n : ℕ) → (nat_beq (suc n) 0 || (nat_beq (suc n) 0 || false)) ≡ true → ⊥
    other n m = ground arith

batch_lem_example :
    (b : Batch (ℕ × ℕ)) × (g' : Graph) × (s' : State ℕ) × (new_batch 0 3 77
        ((0, 4) ∷ (0, 9) ∷ [])
        diamond_graph
      ≡ ok b g')
    × (execute diamond g' b start ≡ ok tt s')
    × IsSettled diamond s'
    × ((m : ℕ)
        → kinds m ≡ var_node
        → s'.value m ≡ last_write diamond ((0, 4) ∷ (0, 9) ∷ []) m (start_values m))
batch_lem_example =
    batch_lem diamond_graph rank diamond_graph-IsWellFormed diamond_graph-IsCacheRight
      diamond_graph-IsLevelled (record { falls = rank_falls; small = small_rank }) 0 3 77
      ((0, 4) ∷ (0, 9) ∷ []) diamond start writes_fit diamond-IsSensible (λ n u. refl)
      start-IsSettled

-- Everything that a batch computes with.
runs : Unit {0}
unfolding new_batch execute new_graph collect_observers get_cached_immediate_observers
    get_cached_value find mem insert cache_immediate_observers cache_value put register_active_batch
    set_value changed_no_notify
runs = tt

-- The three values after a batch.
batch_values : Graph → List (ℕ × ℕ) → List ℕ
batch_values g calls = elim (new_batch 0 3 77 calls g) [
  | ok b g' ↦ elim (execute diamond g' b start) [
    | ok _ s ↦ s.value 0 ∷ s.value 1 ∷ s.value 2 ∷ []
    | throw _ _ ↦ []
    | out_of_fuel ↦ []
  ]
  | throw _ _ ↦ []
  | out_of_fuel ↦ []
]

runs_in_order : batch_values diamond_graph ((0, 4) ∷ (0, 9) ∷ []) ≡ 9 ∷ 10 ∷ 19 ∷ []
unfolding batch_values runs
runs_in_order = refl

-- With a depth of node 1 left from an earlier collection, node 2 is recomputed first: it reads the
-- old value of node 1, and is not recomputed again.
stale_depth_run :
    batch_values (record diamond_graph { depth = λ n. if nat_beq n 1 then 5 else 0 }) ((0, 9) ∷ [])
    ≡ 9 ∷ 10 ∷ 13 ∷ []
unfolding batch_values runs
stale_depth_run = refl

collect_observers_lem_example :
    (out' : NodeSet) × (g' : Graph) × (collect_observers 0 3 0 [] 1 diamond_graph ≡ some (out', g'))
    × IsCollected diamond_graph 0 [] out' g'
collect_observers_lem_example =
    collect_observers_lem 0 3 0 [] diamond_graph rank diamond_graph-IsWellFormed
      diamond_graph-IsCacheRight diamond_graph-IsLevelled
      (record { falls = rank_falls; small = small_rank }) (omega arith)
