-- ===== src/Handles/Tests.antt =====
-- Handles on the nodes of a small graph (include/reaction/core/react.h).
use reaction.Prelude.{
  ℕ, ◌<◌, ◌≡◌, ◌⊎◌, refl, Bool, true, false, some, List, [], ◌∷◌, nat_beq, nat_eq, find, mem,
  insert, remove, erase, put, if◌then◌else◌, arith,
}
use reaction.Cache.{cache_value}
use reaction.Graph.State.{Graph, new_graph, erase_from_observers}
use reaction.Graph.Batches.{is_node_in_active_batch}
use reaction.Memory.Tests.{medium}
use reaction.Source.{Store}
use reaction.Source.Ends.{IsReplaced}
use reaction.Source.Tests.{store, diamond_graph-IsSound, tells_apart}
use reaction.Tracking.{gives, untracked}
use reaction.Handles.LastValue.{last_handle, last_value_lem}
use reaction.Graph.Diamond.{diamond_graph, diamond_graph-IsWellFormed}
use reaction.Graph.Close.{close_node, cascade_close_dependents}
use reaction.Handles.{
  Handles, at, close_handle, is_in_pair, is_pinned, destroy_forgotten, release_weak_ref,
  safe_release_ref, operate_all, destroy_handle, Operation, constructs, copies, moves, copy_assigns,
}
use reaction.Handles.Counting.{count, points}
use reaction.Handles.Script.{operate_all-IsCounted}
use reaction.Handles.Copies.{IsCounted}
use reaction.Handles.Last.{
  close_invalidation, keep_invalidation, after_one, destroy_handle_lem, last_handle_lem, IsClosed,
}

-- No function captures a pointer.
abbrev unheld : ℕ → Bool
unheld n = false

-- No handles yet.
abbrev no_handles : Handles Graph
no_handles = record {
  handles = [];
  refs = record { world = diamond_graph; weak_ref_count = λ n. 0 };
}

no_handles-IsCounted : IsCounted (close_invalidation unheld) 0 no_handles
unfolding count
no_handles-IsCounted = record { counted = λ n a. refl; few = omega arith }

-- Two handles on node 1, one moved to a third place and one copied onto, and one on node 0.
abbrev script : List Operation
script = constructs (some 1) ∷ constructs (some 0) ∷ copies 1 ∷ moves 0 ∷ copy_assigns 1 2 ∷ []

operate_all-IsCounted_example :
    IsCounted
      (close_invalidation unheld)
      5
      (operate_all (close_invalidation unheld) script no_handles)
operate_all-IsCounted_example =
    operate_all-IsCounted (close_invalidation unheld) script 0 no_handles (omega arith)
      no_handles-IsCounted

-- One handle, on node 1.
abbrev one_handle : Handles Graph
one_handle = record {
  handles = some 1 ∷ [];
  refs = record { world = diamond_graph; weak_ref_count = λ n. if nat_beq n 1 then 1 else 0 };
}

one_handle-IsCounted : IsCounted (close_invalidation unheld) 1 one_handle
unfolding count points
one_handle-IsCounted = record { counted = λ n a. ground arith; few = omega arith }

kept_handle-IsCounted : IsCounted keep_invalidation 1 one_handle
unfolding count points
kept_handle-IsCounted = record { counted = λ n a. ground arith; few = omega arith }

destroy_handle_lem_example :
    (destroy_handle keep_invalidation 0 one_handle).refs.world
    ≡ after_one keep_invalidation (count 1 (some 1 ∷ [])) 1 diamond_graph
unfolding at new_graph find
destroy_handle_lem_example =
    destroy_handle_lem keep_invalidation 1 0 1 one_handle (omega arith) kept_handle-IsCounted refl
      refl

last_handle_lem_example :
    ((1 < count 1 (some 1 ∷ []))
      × ((destroy_handle (close_invalidation unheld) 0 one_handle).refs.world ≡ diamond_graph))
    ⊎ ((count 1 (some 1 ∷ []) ≡ 1)
        × IsClosed unheld 1 diamond_graph
            (destroy_handle (close_invalidation unheld) 0 one_handle).refs.world)
unfolding at new_graph find
last_handle_lem_example =
    last_handle_lem unheld 1 0 1 one_handle (omega arith) one_handle-IsCounted refl
      diamond_graph-IsWellFormed refl

-- With its last handle node 1 goes, and node 2, which depends on it; node 0 stays.
last_handle_run :
    let g = (destroy_handle (close_invalidation unheld) 0 one_handle).refs.world in
    (g.alive 0 ≡ true) × (g.alive 1 ≡ false) × (g.alive 2 ≡ false)
unfolding destroy_handle close_handle close_node at new_graph find safe_release_ref release_weak_ref
    cascade_close_dependents destroy_forgotten is_pinned is_in_pair mem insert erase_from_observers
    remove erase
last_handle_run = (refl, refl, refl)

-- The same handle after the cache took the observers of node 1.
abbrev cached_handle : Handles Graph
cached_handle = record {
  handles = some 1 ∷ [];
  refs = record {
    world = record diamond_graph {
      graph_cache = cache_value 0 1 (2 ∷ []) diamond_graph.graph_cache;
    };
    weak_ref_count = λ n. if nat_beq n 1 then 1 else 0;
  };
}

-- The closed node 1 stays alive for its key in the cache.
cached_run :
    let g = (destroy_handle (close_invalidation unheld) 0 cached_handle).refs.world in
    (g.alive 0 ≡ true) × (g.alive 1 ≡ true) × (g.alive 2 ≡ false)
unfolding destroy_handle close_handle close_node at new_graph find safe_release_ref release_weak_ref
    cascade_close_dependents destroy_forgotten is_pinned is_in_pair mem insert erase_from_observers
    remove erase cache_value put
cached_run = (refl, refl, refl)

-- Node 2, which no node reads, becomes a constant.
last_value_lem_example :
    (st' : Store ℕ) × (last_handle medium unheld 0 1 2 store ≡ some st')
    × IsReplaced 2 [] (untracked (gives 5)) store st'
    × (st'.value 2 ≡ store.value 2)
last_value_lem_example =
    last_value_lem medium unheld 0 0 2 5 store diamond_graph-IsWellFormed (diamond_graph-IsSound 2)
      (unfold new_graph in refl) (unfold new_graph in refl) refl
      (unfold is_node_in_active_batch new_graph find in refl) tells_apart
