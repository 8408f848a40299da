-- ===== src/Batch/Whole.antt =====
-- A batch from its construction to its execution (include/reaction/graph/batch.h).
use reaction.Prelude.{
  ℕ, ◌<◌, ◌≡◌, refl, sym, ap, ◌∙◌, inl, inr, Bool, true, false, ◌||◌, List, [], ◌∷◌, mem, arith,
}
use mathlib.Core.Bool.{true≢false}
use reaction.Exception.{ok}
use reaction.Prelude.Walks.{Walk, one, more, Walk-trans}
use reaction.Graph.State.{Graph, NodeSet}
use reaction.Graph.Invariant.{IsWellFormed}
use reaction.Graph.Batches.{register_active_batch}
use reaction.Graph.Batches.Registry.{register_active_batch-alive}
use reaction.Graph.Collect.Visit.{IsCacheRight, IsObserved, with_depth}
use reaction.Graph.Collect.Depths.{Observes, IsLevelled}
use reaction.Graph.Collect.Whole.{IsRankedGraph, IsObserved-of_valid}
use reaction.Propagation.{Network, State, var_node}
use reaction.Propagation.Settle.{IsSensible, Settled_mono}
use reaction.Propagation.Correct.{IsSettled}
use reaction.Batch.{
  Batch, construct, new_batch, order_nodes, then_change, change_nodes, run_values, execute,
}
use reaction.Batch.Sort.{mem-order_nodes, order_nodes-IsSorted}
use reaction.Batch.Nodes.{written, IsOrderedBy, collect_values_lem, Walk-Above, sorted-IsOrdered}
use reaction.Batch.Order.{last_write, run_values_lem, change_nodes_settles, change_nodes_keeps}

-- A batch that was constructed: its nodes are alive, each comes before its observers, and the
-- observers of every written variable are among them.
pub record IsReady {V : Type 0} (g : Graph) (b : Batch (ℕ × V)) : Type 0 where
  pub live : (u : ℕ) → mem u b.batch_nodes ≡ true → g.alive u ≡ true
  pub ordered : IsOrderedBy g.observers b.batch_nodes
  pub covers :
      (n u : ℕ) → mem n (written b.fun) ≡ true → Observes g n u → mem u b.batch_nodes ≡ true
  pub exact :
      (u : ℕ)
      → mem u b.batch_nodes ≡ true
      → (n : ℕ) × (mem n (written b.fun) ≡ true) × Walk (Observes g) n u

Walk-live : (g : Graph) {n u : ℕ} → IsObserved g → Walk (Observes g) n u → g.alive u ≡ true
Walk-live g {n} {u} seen (one o) = seen.live n u o
Walk-live g seen (more o walk) = Walk-live g seen walk

module _ {V : Type 0} (g : Graph) (rank : ℕ → ℕ) (w : IsWellFormed g)
    (right : IsCacheRight g g.graph_cache) (levelled : IsLevelled g g.depth)
    (ranked : IsRankedGraph g rank) where
  constructed :
      (now fuel id : ℕ) (calls : List (ℕ × V))
      → ((n : ℕ) → mem n (written calls) ≡ true → (g.alive n ≡ true) × (rank n < fuel))
      → (b : Batch (ℕ × V)) × (g' : Graph) × (new_batch now fuel id calls g ≡ ok b g')
        × (b.fun ≡ calls)
        × IsReady g b
        × ((u : ℕ) → g'.alive u ≡ g.alive u)
  unfolding new_batch construct mem
  constructed now fuel id calls fits =
      let seen = IsObserved-of_valid g w in
      let c =
        collect_values_lem g rank w ranked now fuel calls [] g.depth g.graph_cache right levelled
          fits in
      let h = with_depth g c.depth' c.cache' in
      let nodes = order_nodes h c.out' [] in
      let inside = λ (u : ℕ). mem-order_nodes h u c.out' [] ∙ no_more (mem u c.out') in
      let found : (u : ℕ)
          → mem u c.out' ≡ true
          → (n : ℕ) × (mem n (written calls) ≡ true) × Walk (Observes g) n u =
        λ u m. elim (c.sound u m) [ inl z ↦ absurd (nothing u z) | inr p ↦ p ] in
      let live : (u : ℕ) → mem u c.out' ≡ true → g.alive u ≡ true =
        λ u m. Walk-live g seen (found u m).2 in
      let b : Batch (ℕ × V) = record {
        observers = c.out';
        batch_nodes = nodes;
        fun = calls;
        batch_id = id;
        is_closed = false;
      } in
      (
        b,
        register_active_batch id c.out' h,
        ap (construct id calls) c.result,
        refl,
        record {
          live = λ u m. live u (sym (inside u) ∙ m);
          ordered =
              sorted-IsOrdered h g.observers nodes
                (order_nodes-IsSorted h c.out' [] live (λ m z. absurd (nothing m z)) tt)
                (λ n u m o.
                  let (x, i, walk) = found n (sym (inside n) ∙ m) in
                  (
                    inside u ∙ c.complete u (inr (x, i, Walk-trans walk o)),
                    Walk-Above g rank w ranked c.depth' c.levelled (c.above x i) walk u o,
                  ));
          covers = λ n u m o. inside u ∙ c.complete u (inr (n, m, one o));
          exact = λ u m. found u (sym (inside u) ∙ m);
        },
        register_active_batch-alive id c.out' h,
      )
    where
      no_more : (t : Bool) → (t || false) ≡ t
      no_more t = ground arith

      nothing : (u : ℕ) → mem u [] ≡ true → ⊥
      nothing u z = true≢false (sym z)

  -- In a well-formed graph whose cache of observers is right, whose ranks fall along the edges and
  -- leave room in 16 bits, and whose depths rise along the edges out of every node that has one:
  -- a batch whose function writes living variables, with fuel above their ranks, can be
  -- constructed and executed. If its network has the graph's edges, is sensible, and every
  -- calculation without a filter agrees with what it reads at first, then this is so again after
  -- the execution; each variable holds the last value written to it, or its old one.
  pub batch_lem :
      (now fuel id : ℕ) (calls : List (ℕ × V)) (net : Network V) (s : State V)
      → ((n : ℕ)
          → mem n (written calls) ≡ true
          → (g.alive n ≡ true) × (rank n < fuel) × (net.kind n ≡ var_node))
      → IsSensible net
      → ((n u : ℕ) → mem u (net.observers n) ≡ mem u (g.observers n))
      → IsSettled net s
      → (b : Batch (ℕ × V)) × (g' : Graph) × (s' : State V) × (new_batch now fuel id calls g
          ≡ ok b g')
        × (execute net g' b s ≡ ok tt s')
        × IsSettled net s'
        × ((m : ℕ) → net.kind m ≡ var_node → s'.value m ≡ last_write net calls m (s.value m))
  unfolding execute then_change
  batch_lem now fuel id calls net s fits sane same settled =
      let (b, g', built, fun, ready, alive) =
        constructed now fuel id calls (λ n m. ((fits n m).0, (fits n m).1)) in
      let r =
        run_values_lem net g' calls s (λ u. ⊥) sane (λ n m. (alive n ∙ (fits n m).0, (fits n m).2))
          (λ u t. inl (settled u t)) in
      let s' = change_nodes net g' b.batch_nodes r.s' in
      let done =
        change_nodes_settles net sane g' b.batch_nodes r.s' (λ u m. alive u ∙ ready.live u m)
          (transfer net.observers g.observers same b.batch_nodes ready.ordered)
          (Settled_mono net r.s'.value
            (λ u t. elim [
              | inl z ↦ absurd z
              | inr (n, i, o) ↦
                  ready.covers n u (ap (λ c. mem n (written c)) fun ∙ i) (sym (same n u) ∙ o)
            ])
            r.settled) in
      (
        b,
        g',
        s',
        built,
        ap (λ c. then_change net g' b.batch_nodes (run_values net g' c s)) fun
            ∙ ap (then_change net g' b.batch_nodes) r.result,
        (λ u t. elim (done u t) [ inl agrees ↦ agrees | inr z ↦ absurd z ]),
        (λ m k. change_nodes_keeps net g' b.batch_nodes r.s' m k ∙ r.values m),
      )
    where
      transfer :
          (f h : ℕ → NodeSet)
          → ((n u : ℕ) → mem u (f n) ≡ mem u (h n))
          → (ns : List ℕ) → IsOrderedBy h ns
          → IsOrderedBy f ns
      transfer f h e [] o = tt
      transfer f h e (n ∷ ns) o = ((λ u m. o.0 u (sym (e n u) ∙ m)), transfer f h e ns o.1)
