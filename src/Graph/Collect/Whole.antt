-- ===== src/Graph/Collect/Whole.antt =====
-- `collectObservers` (observer_graph.h) of a well-formed graph.
use reaction.Prelude.{
  ℕ, ◌+◌, ◌^◌, ◌<◌, ◌≤◌, ◌≡◌, refl, sym, ◌∙◌, ◌↔◌, ◌⊎◌, inl, inr, true, some, mem, arith,
}
use reaction.Prelude.Walks.{Walk}
use reaction.Graph.Caches.{GraphTraversalCache}
use reaction.Graph.State.{Graph, NodeSet}
use reaction.Graph.Invariant.{IsWellFormed, source_known}
use reaction.Graph.Collect.{collect_observers}
use reaction.Graph.Collect.Visit.{IsCacheRight, IsObserved, with_depth}
use reaction.Graph.Collect.Correct.{collect_lem}
use reaction.Graph.Collect.Depths.{Observes, Above, IsLevelled, Deepened}

-- Ranks that fall along the edges, small enough for the depths to fit in 16 bits.
pub record IsRankedGraph (g : Graph) (rank : ℕ → ℕ) : Type 0 where
  pub falls : (n o : ℕ) → Observes g n o → rank o < rank n
  pub small : (n : ℕ) → rank n + 1 < 2 ^ 16

pub IsObserved-of_valid : (g : Graph) → IsWellFormed g → IsObserved g
IsObserved-of_valid g w = record {
  live = λ n u h. w.owned u (source_known g u n (sym (w.symmetric u n) ∙ h));
  listed = λ n u h. w.same_keys n ∙ w.known u n (sym (w.symmetric u n) ∙ h);
}

-- What a collection of the nodes below `n` leaves: only depths and the cache of observers may
-- have changed.
pub record IsCollected (g : Graph) (n : ℕ) (out out' : NodeSet) (g' : Graph) : Type 0 where
  pub depth' : ℕ → ℕ
  pub cache' : GraphTraversalCache
  pub same : g' ≡ with_depth g depth' cache'
  pub right : IsCacheRight g cache'
  pub grows : (u : ℕ) → g.depth u ≤ depth' u
  pub levelled : IsLevelled g depth'
  pub above : Above g depth' n
  pub members : (u : ℕ) → (mem u out' ≡ true) ↔ ((mem u out ≡ true) ⊎ Walk (Observes g) n u)
  -- What was above its observers is so still.
  pub keeps_above : (u : ℕ) → Above g g.depth u → Above g depth' u

IsLevelled-after :
    (g : Graph) (depth' : ℕ → ℕ)
    → Deepened g g.depth depth'
    → IsLevelled g g.depth
    → IsLevelled g depth'
IsLevelled-after g depth' d l u = elim (d.touched u) [
  | inl right ↦ inl right
  | inr same ↦ elim (l u) [
    | inl right ↦ inl (λ v o. lower same (right v o) (d.grows v))
    | inr zero_depth ↦ inr (same ∙ zero_depth)
  ]
]
  where
    lower : {a b c e : ℕ} → a ≡ b → b < c → c ≤ e → a < e
    lower p h k = omega arith

Above-after :
    (g : Graph) (depth' : ℕ → ℕ)
    → Deepened g g.depth depth'
    → (u : ℕ) → Above g g.depth u
    → Above g depth' u
Above-after g depth' d u above = elim (d.touched u) [
  | inl right ↦ right
  | inr same ↦ λ v o. lower same (above v o) (d.grows v)
]
  where
    lower : {a b c e : ℕ} → a ≡ b → b < c → c ≤ e → a < e
    lower p h k = omega arith

-- In a well-formed graph whose cache of observers is right, whose ranks fall along the edges and
-- leave room in 16 bits, and whose depths rise along the edges out of every node that has one,
-- `collectObservers` of a node, from depth 1 and with fuel above its rank, returns. It adds to the
-- set exactly the nodes that depend on the node, directly or through others; every observer of
-- the node is then deeper than it, and the depths still rise along the edges out of every node
-- that has one. Nothing but depths and the cache changes, and the cache is still right.
pub collect_observers_lem :
    (now fuel n : ℕ) (out : NodeSet) (g : Graph) (rank : ℕ → ℕ)
    → IsWellFormed g
    → IsCacheRight g g.graph_cache
    → IsLevelled g g.depth
    → IsRankedGraph g rank
    → rank n < fuel
    → (out' : NodeSet) × (g' : Graph) × (collect_observers now fuel n out 1 g ≡ some (out', g'))
      × IsCollected g n out out' g'
collect_observers_lem now fuel n out g rank w right levelled ranked enough =
    let b =
      collect_lem g now (IsObserved-of_valid g w) rank ranked.falls fuel n 1 out g.depth
        g.graph_cache right enough (ranked.small n)
        (λ u. elim (levelled u) [ inl above ↦ inl above | inr unset ↦ inr (omega (arith, unset)) ])
        (elim (levelled n) [ inl above ↦ inl above | inr unset ↦ inr (omega (arith, unset)) ]) in
    (
      b.out',
      with_depth g b.depth' b.cache',
      b.result,
      record {
        depth' = b.depth';
        cache' = b.cache';
        same = refl;
        right = b.right;
        grows = b.deepened.grows;
        levelled = IsLevelled-after g b.depth' b.deepened levelled;
        above = b.above n refl;
        members = λ u. (b.sound u, b.complete u);
        keeps_above = Above-after g b.depth' b.deepened;
      },
    )
