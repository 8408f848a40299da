-- ===== src/Batch/Calls/Immediate.antt =====
-- `batchExecute` of a function that calls `value` only
-- (include/reaction/factory/reactive_factory.h, include/reaction/graph/batch.h).
use reaction.Prelude.{ℕ, ◌<◌, ◌≡◌, ◌≢◌, refl, sym, ap, ◌∙◌, true, false, List, [], mem}
use reaction.Exception.{Result, ok, throw, out_of_fuel}
use reaction.Graph.State.{Graph, NodeSet}
use reaction.Graph.Caches.{GraphTraversalCache}
use reaction.Graph.Invariant.{IsWellFormed}
use reaction.Graph.Batches.{register_active_batch, unregister_active_batch, is_node_in_active_batch}
use reaction.Graph.Batches.Registry.{batches}
use reaction.Graph.Batches.Release.{OneEach, unregister_active_batch_lem}
use reaction.Graph.Collect.Visit.{IsCacheRight, with_depth}
use reaction.Graph.Collect.Depths.{IsLevelled}
use reaction.Graph.Collect.Whole.{IsRankedGraph}
use reaction.Propagation.{Network, State, var_node}
use reaction.Propagation.Settle.{IsSensible}
use reaction.Propagation.Correct.{IsSettled}
use reaction.Assign.{Ending, returned}
use reaction.Batch.{
  Batch, construct, new_batch, order_nodes, run_values, change_nodes, then_change, execute,
}
use reaction.Batch.Nodes.{written, collect_values_lem}
use reaction.Batch.Order.{last_write}
use reaction.Batch.Whole.{batch_lem}
use reaction.Batch.Calls.Sets.{world, batch_execute-sets}
use reaction.Batch.Calls.{all_sets, World, batch_execute}

-- An execution that returns has written the values and changed the nodes.
executed :
    (net : Network ℕ) (g : Graph) (nodes : List ℕ) (r : Result (State ℕ) (Unit {0})) {s' : State ℕ}
    → then_change net g nodes r ≡ ok tt s'
    → (s : State ℕ) × (r ≡ ok tt s) × (change_nodes net g nodes s ≡ s')
unfolding then_change
executed net g nodes (ok _ s) e = (s, refl, inner e)
  where
    inner : {t t' : State ℕ} → ◌≡◌ {A = Result (State ℕ) (Unit {0})} (ok tt t) (ok tt t') → t ≡ t'
    inner e = cc
executed net g nodes (throw f s) e = absurd (apart e)
  where
    apart : {t : State ℕ} → ◌≢◌ {A = Result (State ℕ) (Unit {0})} (throw f s) (ok tt t)
    apart z = cc
executed net g nodes out_of_fuel e = absurd (apart e)
  where
    apart : {t : State ℕ} → ◌≢◌ {A = Result (State ℕ) (Unit {0})} out_of_fuel (ok tt t)
    apart z = cc

-- How a batch of `value` calls ends: the graph has new depths, cached observers and nothing else.
pub record Executed (net : Network ℕ) (g : Graph) (id : ℕ) (calls : List (ℕ × ℕ)) (s : State ℕ)
    (ending : Ending World (Unit {0})) : Type 0 where
  pub out : NodeSet
  pub depth' : ℕ → ℕ
  pub cache' : GraphTraversalCache
  pub state' : State ℕ
  pub result :
      ending
      ≡ returned tt (
          world
            (unregister_active_batch id (register_active_batch id out (with_depth g depth' cache')))
            state')
  pub right : IsCacheRight g cache'
  pub levelled : IsLevelled g depth'
  pub settled : IsSettled net state'
  pub values : (m : ℕ) → net.kind m ≡ var_node → state'.value m ≡ last_write net calls m (s.value m)

module _ (w : ℕ) (net : Network ℕ) (fuel : ℕ) where
  module _ (g : Graph) (rank : ℕ → ℕ) (wf : IsWellFormed g) (right : IsCacheRight g g.graph_cache)
      (levelled : IsLevelled g g.depth) (ranked : IsRankedGraph g rank) (now id : ℕ)
      (calls : List (ℕ × ℕ)) (s : State ℕ)
      (fits : (n : ℕ)
        → mem n (written calls) ≡ true
        → (g.alive n ≡ true) × (rank n < fuel) × (net.kind n ≡ var_node))
      (sane : IsSensible net) (same : (n u : ℕ) → mem u (net.observers n) ≡ mem u (g.observers n))
      (settled : IsSettled net s) where
    pub batch_execute-Executed :
        Executed net g id calls s (batch_execute w net fuel now id (all_sets calls) (world g s))
    unfolding new_batch construct execute
    batch_execute-Executed =
        let c =
          collect_values_lem g rank wf ranked now fuel calls [] g.depth g.graph_cache right levelled
            (λ n m. ((fits n m).0, (fits n m).1)) in
        let (b, g', s', built, ran, done, values) =
          batch_lem g rank wf right levelled ranked now fuel id calls net s fits sane same
            settled in
        let h = with_depth g c.depth' c.cache' in
        let g0 = register_active_batch id c.out' h in
        let (eb, eg) = same_batch (sym (ap (construct id calls) c.result) ∙ built) in
        let (s1, wrote, changed) =
          executed net g0 (order_nodes h c.out' []) (run_values net g0 calls s)
            ((λ i. execute net (eg i) (eb i) s) ∙ ran) in
        record {
          out = c.out';
          depth' = c.depth';
          cache' = c.cache';
          state' = s';
          result =
              batch_execute-sets w net fuel now id calls c.out' g h s s1 c.result wrote
              ∙ ap (λ t. returned tt (world (unregister_active_batch id g0) t)) changed;
          right = c.right;
          levelled = c.levelled;
          settled = done;
          values = values;
        }
      where
        same_batch : {b b' : Batch (ℕ × ℕ)} {k k' : Graph} → ok b k ≡ ok b' k' → (b ≡ b') × (k ≡ k')
        same_batch e = (cc, cc)

  -- In a well-formed graph whose cache of observers is right, whose ranks fall along the edges and
  -- leave room in 16 bits, and whose depths rise along the edges out of every node that has one,
  -- and whose registry has one entry for each node and none of the new batch: `batchExecute` of a
  -- function that calls `value` for living variables only, with fuel above their ranks, returns.
  -- If its network has the graph's edges, is sensible, and is settled at first, it is settled
  -- again at the end, and each variable holds the last value written to it, or its old one; and
  -- the same nodes are in an active batch as before.
  pub batch_execute_lem :
      (g : Graph) (rank : ℕ → ℕ)
      → IsWellFormed g
      → IsCacheRight g g.graph_cache
      → IsLevelled g g.depth
      → IsRankedGraph g rank
      → (now id : ℕ) (calls : List (ℕ × ℕ)) (s : State ℕ)
      → ((n : ℕ)
          → mem n (written calls) ≡ true
          → (g.alive n ≡ true) × (rank n < fuel) × (net.kind n ≡ var_node))
      → IsSensible net
      → ((n u : ℕ) → mem u (net.observers n) ≡ mem u (g.observers n))
      → IsSettled net s
      → OneEach g.active_batch_nodes
      → ((m : ℕ) → mem id (batches g m) ≡ false)
      → (x : World) × (batch_execute w net fuel now id
            (all_sets calls)
            (record { graph = g; state = s })
          ≡ returned tt x)
        × IsSettled net x.state
        × ((m : ℕ) → net.kind m ≡ var_node → x.state.value m ≡ last_write net calls m (s.value m))
        × ((m : ℕ) → is_node_in_active_batch x.graph m ≡ is_node_in_active_batch g m)
  unfolding is_node_in_active_batch
  batch_execute_lem g rank wf right levelled ranked now id calls s fits sane same settled once new =
      let e =
        batch_execute-Executed g rank wf right levelled ranked now id calls s fits sane same
          settled in
      (
        _,
        e.result,
        e.settled,
        e.values,
        λ m.
            (unregister_active_batch_lem id e.out (with_depth g e.depth' e.cache') m id once new).1,
      )
