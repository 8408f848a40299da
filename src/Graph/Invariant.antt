-- ===== src/Graph/Invariant.antt =====
-- The invariant of the graph of observer_graph.h, and the single writes that keep it.
use reaction.Prelude.{
  ℕ, [], ◌≡◌, refl, sym, ◌∙◌, inl, inr, true, false, ◌||◌, nat_eq, pair_eq, nat_beq, nat_beq_iff,
  mem, insert, erase, find-put, mem-insert, if◌then◌else◌, arith, Bool-cases,
}
use reaction.Prelude.Walks.{Grounded, Grounded-map, Grounded-extend}
use reaction.Cache
use reaction.Graph.State.{Graph, contains, dependents, link, unlink, add_node, add_missing}
use reaction.Graph.Edges.{Edge, IsAcyclic, mem-link, mem-observers-link, Edge-link}

-- The two representations of the edges agree, both maps have the same keys, dependencies are
-- keys, the keys' nodes are alive, and no dependency closes a cycle.
pub record IsWellFormed (g : Graph) : Type 0 where
  pub symmetric : (a b : ℕ) → mem a (g.observers b) ≡ mem b (dependents g a)
  pub same_keys : (n : ℕ) → mem n g.observer_list ≡ contains g n
  pub known : (a b : ℕ) → mem b (dependents g a) ≡ true → contains g b ≡ true
  pub owned : (n : ℕ) → contains g n ≡ true → g.alive n ≡ true
  pub acyclic : IsAcyclic g
  pub cycle_cache_valid : Cache.Laws.IsValid g.cycle_cache

-- What no edit of edges touches.
pub record Keeps (g g' : Graph) : Type 0 where
  pub alive : (n : ℕ) → g'.alive n ≡ g.alive n
  pub depth : (n : ℕ) → g'.depth n ≡ g.depth n
  pub name_list : g'.name_list ≡ g.name_list
  pub active_batch_nodes : g'.active_batch_nodes ≡ g.active_batch_nodes
  pub active_batch_ids : g'.active_batch_ids ≡ g.active_batch_ids

pub Keeps-refl : (g : Graph) → Keeps g g
Keeps-refl g = record {
  alive = λ n. refl;
  depth = λ n. refl;
  name_list = refl;
  active_batch_nodes = refl;
  active_batch_ids = refl;
}

pub Keeps-trans : {g h k : Graph} → Keeps g h → Keeps h k → Keeps g k
Keeps-trans p q = record {
  alive = λ n. q.alive n ∙ p.alive n;
  depth = λ n. q.depth n ∙ p.depth n;
  name_list = q.name_list ∙ p.name_list;
  active_batch_nodes = q.active_batch_nodes ∙ p.active_batch_nodes;
  active_batch_ids = q.active_batch_ids ∙ p.active_batch_ids;
}

-- Dependencies of a known node: only a key has any.
pub source_known : (g : Graph) (a b : ℕ) → mem b (dependents g a) ≡ true → contains g a ≡ true
unfolding mem
source_known g a b h = ground arith

module _ (g g' : Graph) (w : IsWellFormed g) where
  -- Fewer edges between the same nodes.
  pub IsWellFormed-of_fewer :
      ((n : ℕ) → g'.alive n ≡ g.alive n)
      → ((n : ℕ) → contains g' n ≡ contains g n)
      → ((n : ℕ) → mem n g'.observer_list ≡ mem n g.observer_list)
      → ((a b : ℕ) → mem a (g'.observers b) ≡ mem b (dependents g' a))
      → ((a b : ℕ) → mem b (dependents g' a) ≡ true → mem b (dependents g a) ≡ true)
      → Cache.Laws.IsValid g'.cycle_cache
      → IsWellFormed g'
  IsWellFormed-of_fewer alive keys list symmetric fewer cache = record {
    symmetric = symmetric;
    same_keys = λ n. list n ∙ w.same_keys n ∙ sym (keys n);
    known = λ a b h. keys b ∙ w.known a b (fewer a b h);
    owned = λ n h. alive n ∙ w.owned n (sym (keys n) ∙ h);
    acyclic = λ n. Grounded-map (λ x y e. (fewer x y e.0, sym (alive y) ∙ e.1)) (w.acyclic n);
    cycle_cache_valid = cache;
  }

module _ (s t n : ℕ) (g : Graph) where
  pub contains-link : contains (link s t g) n ≡ (nat_beq s n || contains g n)
  unfolding link
  contains-link = ground (arith, find-put s n (insert t (dependents g s)) g.dependent_list)

  pub contains-unlink : contains (unlink s t g) n ≡ (nat_beq s n || contains g n)
  unfolding unlink
  contains-unlink = ground (arith, find-put s n (erase t (dependents g s)) g.dependent_list)

module _ (s t : ℕ) (g : Graph) (w : IsWellFormed g) (ks : contains g s ≡ true) where
  key_of_source : (n : ℕ) → (nat_beq s n || contains g n) ≡ contains g n
  key_of_source n = ground (arith, nat_beq_iff s n)

  -- An edge between known nodes whose source stays grounded.
  pub link-IsWellFormed :
      contains g t ≡ true → Grounded (Edge (link s t g)) s → IsWellFormed (link s t g)
  link-IsWellFormed kt safe = record {
    symmetric =
        λ a b. ground (arith, mem-link s t g a b, mem-observers-link s t g a b, w.symmetric a b);
    same_keys = λ n. unfold link in w.same_keys n ∙ sym (contains-link s t n g ∙ key_of_source n);
    known = λ a b h.
        ground (arith, mem-link s t g a b, contains-link s t b g, w.known a b, nat_beq_iff t b);
    owned = λ n h. unfold link in w.owned n (sym (contains-link s t n g ∙ key_of_source n) ∙ h);
    acyclic = λ n. Grounded-extend s t (Edge-link s t g) safe (w.acyclic n);
    cycle_cache_valid = unfold link in w.cycle_cache_valid;
  }

-- A new node that is alive.
module _ (n : ℕ) (g : Graph) (new : contains g n ≡ false) where
  pub mem-add_node : (a b : ℕ) → mem b (dependents (add_node n g) a) ≡ mem b (dependents g a)
  unfolding add_node mem
  mem-add_node a b = ground (arith, find-put n a [] g.dependent_list, nat_beq_iff n a)

  pub contains-add_node : (k : ℕ) → contains (add_node n g) k ≡ (nat_beq n k || contains g k)
  unfolding add_node
  contains-add_node k = ground (arith, find-put n k [] g.dependent_list)

  pub add_node-IsWellFormed : IsWellFormed g → g.alive n ≡ true → IsWellFormed (add_node n g)
  add_node-IsWellFormed w live = record {
    symmetric = λ a b. unfold add_node in w.symmetric a b ∙ sym (mem-add_node a b);
    same_keys = λ k.
        unfold add_node in
        ground (
          arith,
          mem-insert k n g.observer_list,
          w.same_keys k,
          contains-add_node k,
          nat_beq_iff n k,
          nat_beq_iff k n,
        );
    known = λ a b h. ground (arith, mem-add_node a b, w.known a b, contains-add_node b);
    owned =
        λ k h. unfold add_node in ground (arith, contains-add_node k, w.owned k, nat_beq_iff n k);
    acyclic = λ k.
        unfold add_node in
        Grounded-map (λ x y e. (sym (mem-add_node x y) ∙ e.0, e.1)) (w.acyclic k);
    cycle_cache_valid = unfold add_node in w.cycle_cache_valid;
  }

-- The same edges and the same other members.
pub record SameEdges (g g' : Graph) : Type 0 where
  pub deps : (a b : ℕ) → mem b (dependents g' a) ≡ mem b (dependents g a)
  pub keeps : Keeps g g'

pub SameEdges-refl : (g : Graph) → SameEdges g g
SameEdges-refl g = record { deps = λ a b. refl; keeps = Keeps-refl g }

pub SameEdges-trans : {g h k : Graph} → SameEdges g h → SameEdges h k → SameEdges g k
SameEdges-trans p q = record {
  deps = λ a b. q.deps a b ∙ p.deps a b;
  keeps = Keeps-trans p.keeps q.keeps;
}

pub add_node-SameEdges : (n : ℕ) (g : Graph) → contains g n ≡ false → SameEdges g (add_node n g)
add_node-SameEdges n g new = record {
  deps = mem-add_node n g new;
  keeps =
      unfold add_node in
      record {
        alive = λ k. refl;
        depth = λ k. refl;
        name_list = refl;
        active_batch_nodes = refl;
        active_batch_ids = refl;
      };
}

-- The graph with one more node, if it was missing.
abbrev pub ensure_node : ℕ → Graph → Graph
ensure_node n g = if contains g n then g else add_node n g

pub record Ensured (n : ℕ) (g g' : Graph) : Type 0 where
  pub valid : IsWellFormed g'
  pub same : SameEdges g g'
  pub here : contains g' n ≡ true
  pub grown : (k : ℕ) → contains g k ≡ true → contains g' k ≡ true
  pub only : (k : ℕ) → contains g' k ≡ true → nat_beq n k ≡ false → contains g k ≡ true
  pub cycle_cache : g'.cycle_cache ≡ g.cycle_cache

pub ensure_node_lem :
    (n : ℕ) (g : Graph) → IsWellFormed g → g.alive n ≡ true → Ensured n g (ensure_node n g)
ensure_node_lem n g w live = elim (Bool-cases (contains g n)) [
  | inl old ↦ rw old (record {
    valid = w;
    same = SameEdges-refl g;
    here = old;
    grown = λ k h. h;
    only = λ k h _. h;
    cycle_cache = refl;
  })
  | inr new ↦ rw new (record {
    valid = add_node-IsWellFormed n g new w live;
    same = add_node-SameEdges n g new;
    here = ground (arith, contains-add_node n g new n, nat_beq_iff n n);
    grown = λ k h. ground (arith, contains-add_node n g new k);
    only = λ k h ne. ground (arith, contains-add_node n g new k);
    cycle_cache = unfold add_node in refl;
  })
]

-- `addObserver` adds the nodes that are missing, and nothing else.
pub record Prepared (s t : ℕ) (g g' : Graph) : Type 0 where
  pub valid : IsWellFormed g'
  pub same : SameEdges g g'
  pub source_here : contains g' s ≡ true
  pub target_here : mem t g'.observer_list ≡ true
  pub cycle_cache : g'.cycle_cache ≡ g.cycle_cache

add_missing-ensure :
    (s t : ℕ) (g : Graph)
    → ((n : ℕ) → mem n (ensure_node s g).observer_list ≡ contains (ensure_node s g) n)
    → add_missing s t g ≡ ensure_node t (ensure_node s g)
unfolding add_missing
add_missing-ensure s t g h = rw (h t)

pub add_missing-Prepared :
    (s t : ℕ) (g : Graph)
    → IsWellFormed g
    → g.alive s ≡ true
    → g.alive t ≡ true
    → Prepared s t g (add_missing s t g)
add_missing-Prepared s t g w ls lt =
    let p = ensure_node_lem s g w ls in
    let q = ensure_node_lem t (ensure_node s g) p.valid (p.same.keeps.alive t ∙ lt) in
    rw (add_missing-ensure s t g p.valid.same_keys) (record {
      valid = q.valid;
      same = SameEdges-trans p.same q.same;
      source_here = q.grown s p.here;
      target_here = q.valid.same_keys t ∙ q.here;
      cycle_cache = q.cycle_cache ∙ p.cycle_cache;
    })
