-- ===== src/Graph/Close/Leaf.antt =====
-- `closeNodeInternal` of observer_graph.h, of a node that nobody observes.
use reaction.Prelude.{
  ℕ, ◌≡◌, sym, ap, ◌∙◌, true, false, not, ◌&&◌, [], nat_eq, nat_beq, nat_beq_iff, mem, erase,
  remove, find-remove, mem-erase, nil_of_not-mem, arith,
}
use reaction.Prelude.Walks.{Grounded-map}
use reaction.Graph.State.{Graph, contains, dependents}
use reaction.Graph.Invariant.{IsWellFormed}
use reaction.Graph.Edit.{detach}
use reaction.Graph.Edit.Reset.{Detached, detach_lem}
use reaction.Graph.Close.{close_dependencies, close_observers, close_node_internal, forget}

-- The node is gone with every edge that leaves or enters it, and all else is as it was.
pub record Removed (node : ℕ) (g g' : Graph) : Type 0 where
  pub valid : IsWellFormed g'
  pub keys : (k : ℕ) → contains g' k ≡ (not (nat_beq node k) && contains g k)
  pub deps : (x y : ℕ) → mem y (dependents g' x) ≡ (not (nat_beq node x) && mem y (dependents g x))
  pub alive : (k : ℕ) → g'.alive k ≡ g.alive k

module _ (node : ℕ) (g : Graph) (w : IsWellFormed g) (here : contains g node ≡ true)
    (leaf : (a : ℕ) → mem node (dependents g a) ≡ false) where
  abbrev freed : Graph
  freed = detach node (dependents g node) g

  detached : Detached node (dependents g node) g freed
  detached = detach_lem node (dependents g node) g

  -- The state after both halves and the name.
  abbrev closed : Graph
  closed = record freed {
    dependent_list = remove node freed.dependent_list;
    observer_list = erase node freed.observer_list;
    name_list = remove node freed.name_list;
  }

  unobserved : freed.observers node ≡ []
  unobserved =
      nil_of_not-mem (freed.observers node)
        (λ a. ground (arith, detached.observers a node, w.symmetric a node, leaf a))

  known_list : mem node freed.observer_list ≡ true
  known_list = ap (mem node) detached.observer_list ∙ w.same_keys node ∙ here

  closes_to : close_node_internal node g ≡ closed
  unfolding close_node_internal close_dependencies close_observers forget
  closes_to = rw here (rw (unobserved, forget) (rw known_list))

  mem-closed :
      (x y : ℕ) → mem y (dependents closed x) ≡ (not (nat_beq node x) && mem y (dependents g x))
  unfolding mem
  mem-closed x y = ground (
    arith,
    find-remove node x freed.dependent_list,
    ap (λ m. mem y (dependents (record g { dependent_list = m }) x)) detached.dependent_list,
  )

  contains-closed : (k : ℕ) → contains closed k ≡ (not (nat_beq node k) && contains g k)
  contains-closed k = ground (
    arith,
    find-remove node k freed.dependent_list,
    ap (λ m. contains (record g { dependent_list = m }) k) detached.dependent_list,
  )

  closed-IsWellFormed : IsWellFormed closed
  closed-IsWellFormed = record {
    symmetric = λ a b. ground (
      arith,
      detached.observers a b,
      mem-closed a b,
      w.symmetric a b,
      w.known node b,
      w.owned b,
      w.same_keys b,
      nat_beq_iff node a,
    );
    same_keys = λ n. ground (
      arith,
      mem-erase n node freed.observer_list,
      ap (mem n) detached.observer_list,
      w.same_keys n,
      contains-closed n,
      nat_beq_iff node n,
      nat_beq_iff n node,
    );
    known = λ a b h.
        ground (arith, mem-closed a b, contains-closed b, w.known a b, leaf a, nat_beq_iff node b);
    owned = λ n h. detached.keeps.alive n ∙ w.owned n (ground (arith, contains-closed n));
    acyclic = λ n.
        Grounded-map
          (λ x y e. (ground (arith, mem-closed x y, e.0), sym (detached.keeps.alive y) ∙ e.1))
          (w.acyclic n);
    cycle_cache_valid = rw detached.cycle_cache w.cycle_cache_valid;
  }

  -- `closeNodeInternal` of a known node that nobody observes, in a well-formed graph.
  pub close_node_internal_lem : Removed node g (close_node_internal node g)
  close_node_internal_lem = rw closes_to (record {
    valid = closed-IsWellFormed;
    keys = contains-closed;
    deps = mem-closed;
    alive = detached.keeps.alive;
  })
