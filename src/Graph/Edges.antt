-- ===== src/Graph/Edges.antt =====
-- The edges of the dependency graph of observer_graph.h, and what writing one edge changes.
use reaction.Prelude.{
  ℕ, ◌≡◌, ◌⊎◌, true, not, ◌||◌, ◌&&◌, nat_eq, nat_beq, mem, insert, erase, find-put, mem-insert,
  mem-erase, arith,
}
use reaction.Prelude.Walks.{Grounded}
use reaction.Graph.State.{Graph, dependents, link, unlink, update}

-- `a` depends on `b`, and `b` is not expired.
abbrev pub Edge : Graph → ℕ → ℕ → Type 0
Edge g a b = (mem b (dependents g a) ≡ true) × (g.alive b ≡ true)

-- No walk along the dependencies goes on for ever, so none closes a cycle.
abbrev pub IsAcyclic : Graph → Type 0
IsAcyclic g = (n : ℕ) → Grounded (Edge g) n

module _ (s t : ℕ) (g : Graph) (a b : ℕ) where
  pub mem-link :
      mem b (dependents (link s t g) a) ≡ (nat_beq s a && nat_beq t b || mem b (dependents g a))
  unfolding link
  mem-link = ground (
    arith,
    find-put s a (insert t (dependents g s)) g.dependent_list,
    mem-insert b t (dependents g s),
  )

  pub mem-unlink :
      mem b (dependents (unlink s t g) a)
      ≡ (not (nat_beq s a && nat_beq t b) && mem b (dependents g a))
  unfolding unlink
  mem-unlink = ground (
    arith,
    find-put s a (erase t (dependents g s)) g.dependent_list,
    mem-erase b t (dependents g s),
  )

  pub mem-observers-link :
      mem a ((link s t g).observers b) ≡ (nat_beq s a && nat_beq t b || mem a (g.observers b))
  unfolding link update
  mem-observers-link = ground (arith, mem-insert a s (g.observers t))

  pub mem-observers-unlink :
      mem a ((unlink s t g).observers b)
      ≡ (not (nat_beq s a && nat_beq t b) && mem a (g.observers b))
  unfolding unlink update
  mem-observers-unlink = ground (arith, mem-erase a s (g.observers t))

  pub Edge-link : Edge (link s t g) a b → Edge g a b ⊎ (a ≡ s) × (b ≡ t)
  unfolding link
  Edge-link e = ground (arith, mem-link)

  pub Edge-of_link : Edge g a b → Edge (link s t g) a b
  unfolding link
  Edge-of_link e = ground (arith, mem-link)

pub Edge-link_new : (s t : ℕ) (g : Graph) → g.alive t ≡ true → Edge (link s t g) s t
unfolding link
Edge-link_new s t g h = ground (arith, mem-link s t g s t)
