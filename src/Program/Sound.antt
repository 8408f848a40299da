-- ===== src/Program/Sound.antt =====
-- What a program keeps while the edges stay (include/reaction/graph/observer_graph.h,
-- include/reaction/graph/batch.h).
use reaction.Prelude.{ℕ, ◌≡◌, sym, ◌∙◌, Bool, false, List, mem}
use mathlib.Core.Path.{subst}
use reaction.Graph.State.{Graph}
use reaction.Graph.Caches.{GraphTraversalCache}
use reaction.Graph.Invariant.{IsWellFormed}
use reaction.Graph.Batches.{register_active_batch, unregister_active_batch}
use reaction.Graph.Batches.Registry.{batches}
use reaction.Graph.Batches.Release.{
  OneEach, unregister_active_batch_lem, unregister-OneEach, with_registry, unregister-same,
}
use reaction.Graph.Collect.Visit.{IsCacheRight, with_depth}
use reaction.Graph.Collect.Depths.{IsLevelled}
use reaction.Graph.Collect.Whole.{IsRankedGraph}
use reaction.Propagation.{Network, State}
use reaction.Propagation.Correct.{IsSettled}
use reaction.Batch.Calls.{World}

module _ (net : Network ℕ) (rank : ℕ → ℕ) (live : ℕ → Bool) where
  -- The graph has the network's edges; its caches and depths are right.
  pub record IsGraphSound (g : Graph) : Type 0 where
    pub well_formed : IsWellFormed g
    pub right : IsCacheRight g g.graph_cache
    pub levelled : IsLevelled g g.depth
    pub ranked : IsRankedGraph g rank
    pub same : (n u : ℕ) → mem u (net.observers n) ≡ mem u (g.observers n)
    pub alive : (n : ℕ) → g.alive n ≡ live n

  with_registry-IsGraphSound :
      (g : Graph) (depth : ℕ → ℕ) (cache : GraphTraversalCache) (nodes : List (ℕ × List ℕ))
      (ids : List ℕ)
      → IsGraphSound g
      → IsCacheRight g cache
      → IsLevelled g depth
      → IsGraphSound (with_registry (with_depth g depth cache) nodes ids)
  with_registry-IsGraphSound g depth cache nodes ids k right levelled = record {
    well_formed = record {
      symmetric = k.well_formed.symmetric;
      same_keys = k.well_formed.same_keys;
      known = k.well_formed.known;
      owned = k.well_formed.owned;
      acyclic = k.well_formed.acyclic;
      cycle_cache_valid = k.well_formed.cycle_cache_valid;
    };
    right = record { valid = right.valid; right = right.right };
    levelled = levelled;
    ranked = record { falls = k.ranked.falls; small = k.ranked.small };
    same = k.same;
    alive = k.alive;
  }

  -- `owners` has the batches that protect each node.
  pub record IsSound (owners : ℕ → List ℕ) (x : World) : Type 0 where
    pub sound : IsGraphSound x.graph
    pub once : OneEach x.graph.active_batch_nodes
    pub registry : (n a : ℕ) → mem a (batches x.graph n) ≡ mem a (owners n)
    pub settled : IsSettled net x.state

  -- A change of values only.
  pub with_values-IsSound :
      (owners : ℕ → List ℕ) (x : World) (s : State ℕ)
      → IsSound owners x
      → IsSettled net s
      → IsSound owners (record x { state = s })
  with_values-IsSound owners x s k settled = record {
    sound = k.sound;
    once = k.once;
    registry = k.registry;
    settled = settled;
  }

  -- A batch that has come and gone.
  pub executed-IsSound :
      (owners : ℕ → List ℕ) (x : World) (id : ℕ) (out : List ℕ) (depth : ℕ → ℕ)
      (cache : GraphTraversalCache) (s : State ℕ)
      → IsSound owners x
      → ((n : ℕ) → mem id (owners n) ≡ false)
      → IsCacheRight x.graph cache
      → IsLevelled x.graph depth
      → IsSettled net s
      → IsSound owners (record {
        graph =
            unregister_active_batch id
              (register_active_batch id out (with_depth x.graph depth cache));
        state = s;
      })
  executed-IsSound owners x id out depth cache s k new right levelled settled =
      let h = with_depth x.graph depth cache in
      let (nodes, ids, e) = unregister-same id out h in
      record {
        sound =
            subst IsGraphSound (sym e)
              (with_registry-IsGraphSound x.graph depth cache nodes ids k.sound right levelled);
        once = unregister-OneEach id out h k.once;
        registry = λ n a.
            (unregister_active_batch_lem id out h n a k.once (λ m. k.registry m id ∙ new m)).0
            ∙ k.registry n a;
        settled = settled;
      }
