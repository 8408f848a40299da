-- ===== src/Graph/Collect/Depths.antt =====
-- The depths that `collectObservers` leaves (include/reaction/graph/observer_graph.h).
use reaction.Prelude.{
  ℕ, ◌≤◌, ◌<◌, ◌≡◌, refl, ◌∙◌, ◌⊎◌, inl, inr, true, false, some, ◌∷◌, mem, arith, if_false,
}
use reaction.Graph.Caches.{GraphTraversalCache}
use reaction.Graph.State.{Graph, NodeSet}
use reaction.Graph.Collect.{Collected, collect_each}
use reaction.Graph.Collect.Visit.{IsCacheRight, with_depth, deepen, deepen_lem}

-- `b` observes `a`.
abbrev pub Observes : Graph → ℕ → ℕ → Type 0
Observes g a b = mem b (g.observers a) ≡ true

-- Every observer of the node is deeper than the node.
abbrev pub Above : Graph → (ℕ → ℕ) → ℕ → Type 0
Above g depth u = (v : ℕ) → Observes g u v → depth u < depth v

-- Depths that rise along the edges, where the node was collected at all.
abbrev pub IsLevelled : Graph → (ℕ → ℕ) → Type 0
IsLevelled g depth = (u : ℕ) → Above g depth u ⊎ (depth u ≡ 0)

-- How a collection leaves the depths: none falls, and a node whose depth was changed is right.
pub record Deepened (g : Graph) (depth depth' : ℕ → ℕ) : Type 0 where
  pub grows : (u : ℕ) → depth u ≤ depth' u
  pub touched : (u : ℕ) → Above g depth' u ⊎ (depth' u ≡ depth u)

-- A collection that returned: it added the nodes of `R`, and left the nodes of `Q` above their
-- observers.
pub record Gathered (g : Graph) (call : Collected) (R Q : ℕ → Type 0) (out : NodeSet)
    (depth : ℕ → ℕ) : Type 0 where
  pub out' : NodeSet
  pub depth' : ℕ → ℕ
  pub cache' : GraphTraversalCache
  pub result : call ≡ some (out', with_depth g depth' cache')
  pub right : IsCacheRight g cache'
  pub deepened : Deepened g depth depth'
  pub above : (u : ℕ) → Q u → Above g depth' u
  pub sound : (u : ℕ) → mem u out' ≡ true → (mem u out ≡ true) ⊎ R u
  pub complete : (u : ℕ) → (mem u out ≡ true) ⊎ R u → mem u out' ≡ true

pub collect_step :
    (rec : ℕ → NodeSet → Graph → Collected) (ob : ℕ) (obs out out' : NodeSet) (g g' : Graph)
    → g.alive ob ≡ true
    → rec ob out g ≡ some (out', g')
    → collect_each rec (ob ∷ obs) out g ≡ collect_each rec obs out' g'
unfolding collect_each
collect_step rec ob obs out out' g g' live e = rw (live, e, collect_each)

module _ (g : Graph) where
  pub Above-keeps :
      (depth depth' : ℕ → ℕ) (u : ℕ) → Deepened g depth depth' → Above g depth u → Above g depth' u
  Above-keeps depth depth' u d above = elim (d.touched u) [
    | inl right ↦ right
    | inr same ↦ λ v o. lower same (above v o) (d.grows v)
  ]
    where
      lower : {a b c d : ℕ} → a ≡ b → b < c → c ≤ d → a < d
      lower e h k = omega arith

  pub Deepened-trans : (a b c : ℕ → ℕ) → Deepened g a b → Deepened g b c → Deepened g a c
  Deepened-trans a b c p q = record {
    grows = λ u. omega (arith, p.grows u, q.grows u);
    touched = λ u. elim (q.touched u) [
      | inl right ↦ inl right
      | inr same ↦ elim (p.touched u) [
        | inl right ↦ inl (Above-keeps b c u q right)
        | inr before ↦ inr (same ∙ before)
      ]
    ];
  }

  pub Deepened-refl : (a : ℕ → ℕ) → Deepened g a a
  Deepened-refl a = record { grows = λ u. omega arith; touched = λ u. inr refl }

  -- A node is right, or not deeper than `d`.
  abbrev pub Within : ℕ → (ℕ → ℕ) → Type 0
  Within d depth = (u : ℕ) → Above g depth u ⊎ (depth u ≤ d)

  pub Within-keeps :
      (d : ℕ) (depth depth' : ℕ → ℕ) → Deepened g depth depth' → Within d depth → Within d depth'
  Within-keeps d depth depth' p w u = elim (p.touched u) [
    | inl right ↦ inl right
    | inr same ↦ elim (w u) [
      | inl right ↦ inl (Above-keeps depth depth' u p right)
      | inr small ↦ inr (omega (arith, same, small))
    ]
  ]

  pub deepen-grows :
      (d : ℕ) (obs : NodeSet) (depth : ℕ → ℕ) (u : ℕ) → depth u ≤ deepen d obs depth u
  deepen-grows d obs depth u = ground (arith, deepen_lem d obs depth u)

  pub deepen-reaches :
      (d : ℕ) (obs : NodeSet) (depth : ℕ → ℕ) (u : ℕ) → mem u obs ≡ true → d ≤ deepen d obs depth u
  deepen-reaches d obs depth u h = ground (arith, deepen_lem d obs depth u)

  pub deepen-away :
      (d : ℕ) (obs : NodeSet) (depth : ℕ → ℕ) (u : ℕ)
      → mem u obs ≡ false
      → deepen d obs depth u ≡ depth u
  deepen-away d obs depth u h = deepen_lem d obs depth u ∙ if_false h _ _

  deepen_cases :
      (d : ℕ) (obs : NodeSet) (depth : ℕ → ℕ) (u : ℕ)
      → (deepen d obs depth u ≡ depth u) ⊎ (deepen d obs depth u ≡ d)
  deepen_cases d obs depth u = ground (arith, deepen_lem d obs depth u)

  -- A visit of the observers of a node at depth `d`.
  pub deepen-Within :
      (d : ℕ) (obs : NodeSet) (depth : ℕ → ℕ) → Within d depth → Within d (deepen d obs depth)
  deepen-Within d obs depth w u = elim (deepen_cases d obs depth u) [
    | inr raised ↦ inr (omega (arith, raised))
    | inl same ↦ elim (w u) [
      | inl right ↦ inl (λ v o. omega (arith, same, right v o, deepen-grows d obs depth v))
      | inr small ↦ inr (omega (arith, same, small))
    ]
  ]
