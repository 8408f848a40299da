-- ===== src/Graph/Close/Whole.antt =====
-- What `ObserverGraph::closeNode` leaves (observer_graph.h).
use reaction.Prelude.{
  ℕ, suc, ◌≡◌, ◌↔◌, refl, inl, inr, true, false, some, [], nat_eq, mem, length, arith, Bool-cases,
}
use reaction.Prelude.Walks.{Reach, here, via}
use reaction.Graph.State.{Graph, NodeSet, contains, dependents}
use reaction.Graph.Edges.{Edge}
use reaction.Graph.Invariant.{IsWellFormed}
use reaction.Graph.Search.Fuel.{unseen-le_length}
use reaction.Graph.Close.{cascade_close_dependents, close_fuel, close_node}
use reaction.Graph.Close.Cascade.{cascade_Closes}
use reaction.Graph.Close.Loop.{Without, Progress}

-- The known nodes that are left are exactly those that do not depend on the closed node, directly
-- or through others; each has the dependencies that it had.
pub record NodeClosed (node : ℕ) (g g' : Graph) : Type 0 where
  pub valid : IsWellFormed g'
  pub keys : (k : ℕ) → (contains g' k ≡ true) ↔ ((contains g k ≡ true) × (¬ Reach (Edge g) k node))
  pub deps : (x y : ℕ) → contains g' x ≡ true → mem y (dependents g' x) ≡ mem y (dependents g x)

module _ (node : ℕ) (g : Graph) (w : IsWellFormed g) (there : contains g node ≡ true) where
  nothing_gone : Without [] g g
  unfolding mem
  nothing_gone = record {
    valid = w;
    keys = λ k. ground arith;
    deps = λ x y. ground arith;
    alive = λ k. refl;
  }

  abbrev Final : NodeSet → NodeSet → Graph → Type 0
  Final gone marks g' = Progress g w (λ k. Reach (Edge g) k node) [] [] marks g' gone

  -- Being gone is the same as depending on the node.
  gone_iff :
      (gone marks : NodeSet) (g' : Graph)
      → Final gone marks g'
      → mem node gone ≡ true
      → (k : ℕ)
      → (mem k gone ≡ true → Reach (Edge g) k node) × (Reach (Edge g) k node → mem k gone ≡ true)
  unfolding mem
  gone_iff gone marks g' p closed k =
      (λ h. elim (p.why k h) [ inl before ↦ absurd (never before) | inr r ↦ r ], back k)
    where
      never : false ≡ true → ⊥
      never e = cc

      back_from : {a b : ℕ} → Reach (Edge g) a b → mem b gone ≡ true → mem a gone ≡ true
      back_from here h = h
      back_from (via {a} {b} e r) h = p.closed a b e.0 (back_from r h)

      back : (a : ℕ) → Reach (Edge g) a node → mem a gone ≡ true
      back a r = back_from r closed

  closed_from :
      (gone marks : NodeSet) (g' : Graph)
      → Final gone marks g'
      → mem node gone ≡ true
      → NodeClosed node g g'
  closed_from gone marks g' p closed = record {
    valid = p.without.valid;
    keys = λ k.
        let iff = gone_iff gone marks g' p closed k in
        (
          λ h. (ground (arith, p.without.keys k), λ r. ground (arith, p.without.keys k, iff.1 r)),
          λ (h, away). elim (Bool-cases (mem k gone)) [
            | inl gone_k ↦ absurd (away (iff.0 gone_k))
            | inr stays ↦ ground (arith, p.without.keys k)
          ],
        );
    deps = λ x y h. ground (arith, p.without.keys x, p.without.deps x y);
  }

  close_node-eq :
      (marks : NodeSet) (g' : Graph)
      → cascade_close_dependents (close_fuel g) (some node) [] g ≡ some (marks, g')
      → close_node (some node) g ≡ some g'
  unfolding close_node
  close_node-eq marks g' e = rw (close_node, e)

  -- `closeNode` of a known node of a well-formed graph ends, and removes the node and exactly
  -- those that depend on it, directly or through others. The graph that is left is well-formed,
  -- so no set holds a node that is gone, and the nodes that are left keep their dependencies.
  pub close_node_lem : (g' : Graph) × (close_node (some node) g ≡ some g') × NodeClosed node g g'
  unfolding mem
  close_node_lem =
      let (marks, g', gone, e, p, closed) =
        cascade_Closes g w (suc (suc (length g.dependent_list))) node [] g [] [] (λ k. refl)
          nothing_gone (λ a b h k. k) there (λ q h. absurd (never h))
          (omega (arith, unseen-le_length g.dependent_list [])) in
      (g', close_node-eq marks g' e, closed_from gone marks g' p closed)
    where
      never : false ≡ true → ⊥
      never h = cc
