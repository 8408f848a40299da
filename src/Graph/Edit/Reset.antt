-- ===== src/Graph/Edit/Reset.antt =====
-- `resetNodeInternal` and `resetNode` of observer_graph.h.
use reaction.Prelude.{
  ℕ, ◌≡◌, refl, ap, ◌∙◌, inl, inr, true, not, ◌&&◌, [], ◌∷◌, nat_eq, nat_beq, nat_beq_iff, mem, put,
  find-put, mem-erase, if◌then◌else◌, arith, Bool-cases,
}
use reaction.Graph.State.{Graph, NodeSet, contains, dependents, update, erase_from_observers}
use reaction.Graph.Invariant.{
  IsWellFormed, Keeps, Keeps-refl, Keeps-trans, IsWellFormed-of_fewer, source_known,
}
use reaction.Graph.HasCycle.{SoundFor}
use reaction.Graph.Edit.{detach, reset_node_internal}
use reaction.Graph.Edit.Add.{AgreeOff, SoundFor-off}

-- `node` was erased from the observers of those of `ds` that are known and not expired.
pub record Detached (node : ℕ) (ds : NodeSet) (g g' : Graph) : Type 0 where
  pub observers :
      (a b : ℕ)
      → mem a (g'.observers b) ≡ (
          not (nat_beq node a && mem b ds && g.alive b && mem b g.observer_list)
          && mem a (g.observers b))
  pub dependent_list : g'.dependent_list ≡ g.dependent_list
  pub observer_list : g'.observer_list ≡ g.observer_list
  pub alive : g'.alive ≡ g.alive
  pub keeps : Keeps g g'
  pub cycle_cache : g'.cycle_cache ≡ g.cycle_cache

detach_one : ℕ → ℕ → Graph → Graph
detach_one node d g =
    if g.alive d && mem d g.observer_list then erase_from_observers node d g else g

detach_one_lem : (node d : ℕ) (g : Graph) → Detached node (d ∷ []) g (detach_one node d g)
unfolding detach_one mem
detach_one_lem node d g = elim (Bool-cases (g.alive d && mem d g.observer_list)) [
  | inl there ↦ rw there (
      unfold erase_from_observers update in
      record {
        observers = λ a b. ground (
          arith,
          mem-erase a node (g.observers d),
          nat_beq_iff d b,
          nat_beq_iff b d,
          nat_beq_iff node a,
          nat_beq_iff a node,
          there,
        );
        dependent_list = refl;
        observer_list = refl;
        alive = refl;
        keeps = record {
          alive = λ n. refl;
          depth = λ n. refl;
          name_list = refl;
          active_batch_nodes = refl;
          active_batch_ids = refl;
        };
        cycle_cache = refl;
      })
  | inr absent ↦ rw absent (record {
    observers = λ a b. ground (arith, nat_beq_iff b d, absent);
    dependent_list = refl;
    observer_list = refl;
    alive = refl;
    keeps = Keeps-refl g;
    cycle_cache = refl;
  })
]

pub detach_lem : (node : ℕ) (ds : NodeSet) (g : Graph) → Detached node ds g (detach node ds g)
unfolding detach mem detach_one
detach_lem node [] g = record {
  observers = λ a b. ground arith;
  dependent_list = refl;
  observer_list = refl;
  alive = refl;
  keeps = Keeps-refl g;
  cycle_cache = refl;
}
detach_lem node (d ∷ ds) g =
    let p = detach_one_lem node d g in
    let q = detach_lem node ds (detach_one node d g) in
    record {
      observers = λ a b.
          ground
            (arith, q.observers a b, p.observers a b, ap (mem b) p.observer_list, p.keeps.alive b);
      dependent_list = q.dependent_list ∙ p.dependent_list;
      observer_list = q.observer_list ∙ p.observer_list;
      alive = q.alive ∙ p.alive;
      keeps = Keeps-trans p.keeps q.keeps;
      cycle_cache = q.cycle_cache ∙ p.cycle_cache;
    }

-- The node has no dependencies left, nobody lists it as an observer, and no other edge changed.
pub record WasReset (node : ℕ) (g g' : Graph) : Type 0 where
  pub valid : IsWellFormed g'
  pub deps : (x y : ℕ) → mem y (dependents g' x) ≡ (not (nat_beq node x) && mem y (dependents g x))
  pub keys : (n : ℕ) → contains g' n ≡ contains g n
  pub keeps : Keeps g g'
  pub cycle_cache : g'.cycle_cache ≡ g.cycle_cache

module _ (node : ℕ) (g : Graph) (w : IsWellFormed g) where
  abbrev emptied : Graph
  emptied =
      let g' = detach node (dependents g node) g in
      record g' { dependent_list = put node [] g'.dependent_list }

  detached : Detached node (dependents g node) g (detach node (dependents g node) g)
  detached = detach_lem node (dependents g node) g

  mem-emptied :
      (x y : ℕ) → mem y (dependents emptied x) ≡ (not (nat_beq node x) && mem y (dependents g x))
  unfolding mem
  mem-emptied x y = ground (
    arith,
    find-put node x [] (detach node (dependents g node) g).dependent_list,
    ap (λ m. mem y (dependents (record g { dependent_list = m }) x)) detached.dependent_list,
  )

  contains-emptied : contains g node ≡ true → (n : ℕ) → contains emptied n ≡ contains g n
  contains-emptied there n = ground (
    arith,
    find-put node n [] (detach node (dependents g node) g).dependent_list,
    ap (λ m. contains (record g { dependent_list = m }) n) detached.dependent_list,
    nat_beq_iff node n,
  )

  emptied-symmetric : (a b : ℕ) → mem a (emptied.observers b) ≡ mem b (dependents emptied a)
  emptied-symmetric a b = ground (
    arith,
    detached.observers a b,
    mem-emptied a b,
    w.symmetric a b,
    w.known node b,
    w.owned b,
    w.same_keys b,
    nat_beq_iff node a,
  )

  emptied-WasReset : contains g node ≡ true → WasReset node g emptied
  emptied-WasReset there = record {
    valid =
        IsWellFormed-of_fewer g emptied w detached.keeps.alive (contains-emptied there)
          (λ n. ap (mem n) detached.observer_list) emptied-symmetric
          (λ a b h. ground (arith, mem-emptied a b)) (rw detached.cycle_cache w.cycle_cache_valid);
    deps = mem-emptied;
    keys = contains-emptied there;
    keeps = record {
      alive = detached.keeps.alive;
      depth = detached.keeps.depth;
      name_list = detached.keeps.name_list;
      active_batch_nodes = detached.keeps.active_batch_nodes;
      active_batch_ids = detached.keeps.active_batch_ids;
    };
    cycle_cache = detached.cycle_cache;
  }

  -- `resetNodeInternal` on a well-formed graph removes exactly the edges that leave the node, on
  -- both sides, and keeps the graph well-formed with the same keys.
  pub reset_node_internal_lem : WasReset node g (reset_node_internal node g)
  unfolding reset_node_internal
  reset_node_internal_lem = elim (Bool-cases (contains g node)) [
    | inl there ↦ rw there (emptied-WasReset there)
    | inr absent ↦ rw absent (record {
      valid = w;
      deps = λ x y. ground (arith, source_known g node y, nat_beq_iff node x);
      keys = λ n. refl;
      keeps = Keeps-refl g;
      cycle_cache = refl;
    })
  ]

pub WasReset-off : (node : ℕ) (g g' : Graph) → WasReset node g g' → AgreeOff node g g'
WasReset-off node g g' r = record {
  off = λ x y o. ground (arith, r.deps x y);
  alive = r.keeps.alive;
}

-- Right cached answers for the node stay right when it is reset.
pub WasReset-sound :
    (node : ℕ) (g g' : Graph) → WasReset node g g' → SoundFor node g → SoundFor node g'
WasReset-sound node g g' r sound =
    SoundFor-off node g g' (WasReset-off node g g' r) sound (λ u v h. inl (rw (← r.cycle_cache) h))
