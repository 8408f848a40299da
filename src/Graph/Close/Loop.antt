-- ===== src/Graph/Close/Loop.antt =====
-- The loop of a cascade over the observers of a node (include/reaction/graph/observer_graph.h).
use reaction.Prelude.{
  ℕ, ◌≤◌, ◌<◌, ◌≡◌, refl, sym, ◌∙◌, ◌⊎◌, inl, inr, true, not, ◌||◌, ◌&&◌, some, [], ◌∷◌, nat_eq,
  nat_beq, nat_beq_iff, mem, arith, Bool-cases,
}
use mathlib.Core.Path.{subst}
use reaction.Prelude.Walks.{Walk, Reach, Walk-then, Walk-of_edge}
use reaction.Graph.State.{Graph, NodePtr, NodeSet, contains, dependents}
use reaction.Graph.Edges.{Edge}
use reaction.Graph.Invariant.{IsWellFormed, source_known}
use reaction.Graph.Search.Fuel.{unseen, unseen_mono}
use reaction.Graph.Close.{Cascade, cascade_observers}

-- `g` is `g0` without the nodes of `gone`.
pub record Without (gone : NodeSet) (g0 g : Graph) : Type 0 where
  pub valid : IsWellFormed g
  pub keys : (k : ℕ) → contains g k ≡ (not (mem k gone) && contains g0 k)
  pub deps : (x y : ℕ) → mem y (dependents g x) ≡ (not (mem x gone) && mem y (dependents g0 x))
  pub alive : (k : ℕ) → g.alive k ≡ g0.alive k

module _ (g0 : Graph) (w0 : IsWellFormed g0) where
  -- Every observer of a node that is gone is gone.
  abbrev pub Closed : NodeSet → Type 0
  Closed gone = (a b : ℕ) → mem b (dependents g0 a) ≡ true → mem b gone ≡ true → mem a gone ≡ true

  -- The marks are the nodes that are gone and the ancestors whose turn is still to come.
  abbrev pub Marks : NodeSet → NodeSet → NodeSet → Type 0
  Marks marks gone pending = (k : ℕ) → mem k marks ≡ (mem k gone || mem k pending)

  -- What closing leaves: more nodes are gone, each for the reason `Q`.
  pub record Progress (Q : ℕ → Type 0) (pending gone marks : NodeSet) (g : Graph) (gone' : NodeSet)
      : Type 0 where
    pub marked : Marks marks gone' pending
    pub without : Without gone' g0 g
    pub grown : (k : ℕ) → mem k gone ≡ true → mem k gone' ≡ true
    pub why : (k : ℕ) → mem k gone' ≡ true → (mem k gone ≡ true) ⊎ Q k
    pub closed : Closed gone'

  abbrev pub Rec : Type 0
  Rec = NodePtr → NodeSet → Graph → Cascade

  -- A call on a known node that depends on every pending one.
  abbrev pub Closes : ℕ → Rec → Type 0
  Closes fuel rec =
      (n : ℕ) (marks : NodeSet) (g : Graph) (gone pending : NodeSet)
      → Marks marks gone pending
      → Without gone g0 g
      → Closed gone
      → contains g0 n ≡ true
      → ((p : ℕ) → mem p pending ≡ true → Walk (Edge g0) n p)
      → unseen g0.dependent_list marks < fuel
      → (marks' : NodeSet) × (g' : Graph) × (gone' : NodeSet) × (rec (some n) marks g
          ≡ some (marks', g'))
        × Progress (λ k. Reach (Edge g0) k n) pending gone marks' g' gone'
        × (mem n gone' ≡ true)

  Marks-grow :
      (marks marks' gone gone' pending : NodeSet)
      → Marks marks gone pending
      → Marks marks' gone' pending
      → ((k : ℕ) → mem k gone ≡ true → mem k gone' ≡ true)
      → unseen g0.dependent_list marks' ≤ unseen g0.dependent_list marks
  Marks-grow marks marks' gone gone' pending m m' grow =
      unseen_mono g0.dependent_list marks marks' [] (λ k h. ground (arith, m k, m' k, grow k))

  cascade_observers-next :
      (rec : Rec) (ob : ℕ) (obs marks : NodeSet) (g : Graph) (marks' : NodeSet) (g' : Graph)
      → g.alive ob ≡ true
      → rec (some ob) marks g ≡ some (marks', g')
      → cascade_observers rec (ob ∷ obs) marks g ≡ cascade_observers rec obs marks' g'
  unfolding cascade_observers
  cascade_observers-next rec ob obs marks g marks' g' live e = ground arith

  -- The loop over the copied observers of `from`.
  pub observers-Progress :
      (fuel : ℕ) (rec : Rec) (from : ℕ) (obs marks : NodeSet) (g : Graph) (gone pending : NodeSet)
      → Closes fuel rec
      → Marks marks gone pending
      → Without gone g0 g
      → Closed gone
      → ((ob : ℕ) → mem ob obs ≡ true → (mem from (dependents g0 ob) ≡ true))
      → contains g0 from ≡ true
      → ((p : ℕ) → mem p pending ≡ true → Reach (Edge g0) from p)
      → unseen g0.dependent_list marks < fuel
      → (marks' : NodeSet) × (g' : Graph) × (gone' : NodeSet) × (cascade_observers rec obs marks g
          ≡ some (marks', g'))
        × Progress (λ k. Walk (Edge g0) k from) pending gone marks' g' gone'
        × ((ob : ℕ) → mem ob obs ≡ true → mem ob gone' ≡ true)
  unfolding cascade_observers mem
  observers-Progress fuel rec from [] marks g gone pending r m w c edges k up enough = (
    marks,
    g,
    gone,
    refl,
    record { marked = m; without = w; grown = λ k h. h; why = λ k h. inl h; closed = c },
    λ ob h. cc,
  )
  observers-Progress fuel rec from (ob ∷ obs) marks g gone pending r m w c edges k up enough =
      let into : mem from (dependents g0 ob) ≡ true =
        edges ob (ground (arith, nat_beq_iff ob ob)) in
      let edge : Edge g0 ob from = (into, w0.owned from k) in
      let known : contains g0 ob ≡ true = ground (arith, source_known g0 ob from into) in
      let live : g.alive ob ≡ true = w.alive ob ∙ w0.owned ob known in
      let (marks1, g1, gone1, e1, p1, there) =
        r ob marks g gone pending m w c known (λ p h. Walk-of_edge edge (up p h)) enough in
      let (marks2, g2, gone2, e2, p2, all) =
        observers-Progress fuel rec from obs marks1 g1 gone1 pending r p1.marked p1.without
          p1.closed (λ o h. edges o (ground arith)) k up
          (omega (arith, Marks-grow marks marks1 gone gone1 pending m p1.marked p1.grown)) in
      (
        marks2,
        g2,
        gone2,
        cascade_observers-next rec ob obs marks g marks1 g1 live e1 ∙ e2,
        record {
          marked = p2.marked;
          without = p2.without;
          grown = λ x h. p2.grown x (p1.grown x h);
          why = λ x h. elim (p2.why x h) [
            | inr late ↦ inr late
            | inl early ↦ elim (p1.why x early) [
              | inl before ↦ inl before
              | inr through ↦ inr (Walk-then through edge)
            ]
          ];
          closed = p2.closed;
        },
        λ o h. elim (Bool-cases (nat_beq o ob)) [
          | inl same ↦
              subst (λ x. mem x gone2 ≡ true) (sym ((nat_beq_iff o ob).0 same)) (p2.grown ob there)
          | inr other ↦ all o (ground arith)
        ],
      )
