-- ===== src/Graph/Edit/Public.antt =====
-- `addObserver` and `resetNode` of observer_graph.h, which invalidate the caches.
use reaction.Prelude.{
  ℕ, ◌≡◌, refl, ◌⊎◌, inl, inr, Bool, true, false, not, ◌||◌, ◌&&◌, none, nat_eq, pair_eq, nat_beq,
  nat_beq_iff, mem, find, arith, Bool-cases,
}
use mathlib.Core.Path.{subst}
use reaction.Cache
use reaction.Prelude.Walks.{Reach, grounded}
use reaction.Exception.{Result, ok, throw, out_of_fuel, ReactionException}
use reaction.Graph.State.{
  add_node, contains, Graph, new_graph, ◌>>=◌, dependents, add_missing, invalidate_caches,
}
use reaction.Graph.Edges.{Edge}
use reaction.Graph.Invariant.{add_node-SameEdges, IsWellFormed, Keeps}
use reaction.Graph.Search.{has_cycle}
use reaction.Graph.HasCycle.{SoundFor}
use reaction.Graph.SearchCycle.{cached_cycle}
use reaction.Graph.Edit.{
  commit, add_edge, add_observer, add_observer_internal, reset_node, reset_node_internal,
}
use reaction.Graph.Edit.Add.{
  AgreeOff-of_same, SoundFor-off, Added, Refused, add_observer_internal_lem,
}
use reaction.Graph.Edit.Reset.{reset_node_internal_lem}

-- Every cached answer is right.
abbrev pub IsSound : Graph → Type 0
IsSound g = (s : ℕ) → SoundFor s g

-- A cache that answers nothing answers nothing wrong.
pub IsSound-of_misses : (g : Graph) → ((x y : ℕ) → cached_cycle g x y ≡ none) → IsSound g
IsSound-of_misses g misses s t b h = ground (arith, misses s t)

module _ (g : Graph) where
  pub invalidated_misses : (x y : ℕ) → cached_cycle (invalidate_caches g) x y ≡ none
  unfolding invalidate_caches
  invalidated_misses x y = (Cache.Laws.invalidate_all_entries_lem (x, y) g.cycle_cache).1

  pub invalidated-IsSound : IsSound (invalidate_caches g)
  invalidated-IsSound = IsSound-of_misses (invalidate_caches g) invalidated_misses

  pub invalidated-IsWellFormed : IsWellFormed g → IsWellFormed (invalidate_caches g)
  unfolding invalidate_caches
  invalidated-IsWellFormed w = record {
    symmetric = w.symmetric;
    same_keys = w.same_keys;
    known = w.known;
    owned = w.owned;
    acyclic = w.acyclic;
    cycle_cache_valid = (Cache.Laws.invalidate_all_entries_lem (0, 0) g.cycle_cache).0;
  }

-- The edge was added, and all cached answers are right.
pub record AddedSound (s t : ℕ) (g g' : Graph) : Type 0 where
  pub valid : IsWellFormed g'
  pub sound : IsSound g'
  pub keeps : Keeps g g'
  pub allowed : ¬ Reach (Edge g) t s
  pub deps :
      (x y : ℕ) → mem y (dependents g' x) ≡ (nat_beq s x && nat_beq t y || mem y (dependents g x))

module _ (finish : Graph → Graph) (s t : ℕ) where
  finish_returns :
      (r : Result Graph Bool) (g k : Graph)
      → ((λ _. r) >>= commit (λ h. h) s t) g ≡ ok tt k
      → ((λ _. r) >>= commit finish s t) g ≡ ok tt (finish k)
  unfolding commit
  finish_returns (ok true h) g k e = cc
  finish_returns (ok false h) g k e = ground arith
  finish_returns (throw x h) g k e = cc
  finish_returns out_of_fuel g k e = cc

  finish_throws :
      (r : Result Graph Bool) (g : Graph) (x : ReactionException) (k : Graph)
      → ((λ _. r) >>= commit (λ h. h) s t) g ≡ throw x k
      → ((λ _. r) >>= commit finish s t) g ≡ throw x k
  unfolding commit
  finish_throws (ok true h) g x k e = e
  finish_throws (ok false h) g x k e = cc
  finish_throws (throw y h) g x k e = e
  finish_throws out_of_fuel g x k e = cc

module _ (now s t : ℕ) (g k : Graph) where
  pub add_observer_returns :
      add_observer_internal now s t g ≡ ok tt k
      → add_observer now s t g ≡ ok tt (invalidate_caches k)
  unfolding add_observer add_observer_internal add_edge
  add_observer_returns e = elim (Bool-cases (nat_beq s t)) [
    | inl self ↦ ground arith
    | inr other ↦ rw other (
        finish_returns invalidate_caches s t (has_cycle now s t (add_missing s t g)) g k
          (rw other at e))
  ]

  pub add_observer_throws :
      (x : ReactionException)
      → add_observer_internal now s t g ≡ throw x k
      → add_observer now s t g ≡ throw x k
  unfolding add_observer add_observer_internal add_edge
  add_observer_throws x e = elim (Bool-cases (nat_beq s t)) [
    | inl self ↦ ground arith
    | inr other ↦ rw other (
        finish_throws invalidate_caches s t (has_cycle now s t (add_missing s t g)) g x k
          (rw other at e))
  ]

module _ (now s t : ℕ) (g : Graph) (w : IsWellFormed g) (sound : IsSound g) where
  added_sound : (k : Graph) → Added s t g k → AddedSound s t g (invalidate_caches k)
  unfolding invalidate_caches
  added_sound k a = record {
    valid = invalidated-IsWellFormed k a.valid;
    sound = invalidated-IsSound k;
    keeps = record {
      alive = a.keeps.alive;
      depth = a.keeps.depth;
      name_list = a.keeps.name_list;
      active_batch_nodes = a.keeps.active_batch_nodes;
      active_batch_ids = a.keeps.active_batch_ids;
    };
    allowed = a.allowed;
    deps = a.deps;
  }

  Refused-IsSound : (e : ReactionException) (k : Graph) → Refused s t g e k → IsSound k
  Refused-IsSound e k r u = elim (Bool-cases (nat_beq s u)) [
    | inl same ↦ subst (λ x. SoundFor x k) ((nat_beq_iff s u).0 same) r.sound
    | inr other ↦
        SoundFor-off u g k (AgreeOff-of_same u g k r.same) (sound u)
          (λ v b h. inl (r.others u v b other h))
  ]

  -- `addObserver` on a well-formed graph whose cached answers are right, between nodes that are
  -- alive. It returns exactly if the source cannot be reached from the target along dependencies,
  -- and adds that edge and no other; else it throws, with all edges as they were. Either way the
  -- graph is well-formed, so without a cycle, and its cached answers are right.
  pub add_observer_lem :
      g.alive s ≡ true
      → g.alive t ≡ true
      → ((g' : Graph) × (add_observer now s t g ≡ ok tt g') × AddedSound s t g g')
        ⊎ ((e : ReactionException) × (g' : Graph) × (add_observer now s t g ≡ throw e g')
            × Refused s t g e g'
            × IsSound g')
  add_observer_lem ls lt = elim (add_observer_internal_lem now s t g w (sound s) ls lt) [
    | inl (k, e, a) ↦ inl (invalidate_caches k, add_observer_returns now s t g k e, added_sound k a)
    | inr (x, k, e, r) ↦ inr (x, k, add_observer_throws now s t g k x e, r, Refused-IsSound x k r)
  ]

-- `resetNode` on a well-formed graph removes exactly the edges that leave the node, whether it is
-- in an active batch or not, and leaves a well-formed graph whose cached answers are right,
-- whatever they were before.
pub reset_node_lem :
    (node : ℕ) (g : Graph)
    → IsWellFormed g
    → IsWellFormed (reset_node node g)
      × IsSound (reset_node node g)
      × ((x y : ℕ)
          → mem y (dependents (reset_node node g) x)
            ≡ (not (nat_beq node x) && mem y (dependents g x)))
unfolding reset_node invalidate_caches
reset_node_lem node g w =
    let r = reset_node_internal_lem node g w in
    (
      invalidated-IsWellFormed (reset_node_internal node g) r.valid,
      invalidated-IsSound (reset_node_internal node g),
      r.deps,
    )

no_edge : {b : Bool} → false ≡ true → b ≡ true
no_edge e = cc

-- The graph with no node is well-formed, and its cached answers are right.
pub new_graph_lem : (alive : ℕ → Bool) → IsWellFormed (new_graph alive) × IsSound (new_graph alive)
unfolding new_graph mem find Cache.Laws.peek
new_graph_lem alive = (
  record {
    symmetric = λ a b. refl;
    same_keys = λ n. refl;
    known = λ a b h. no_edge h;
    owned = λ n h. no_edge h;
    acyclic = λ n. grounded n (λ m e. absurd (Bool_absurd e.0));
    cycle_cache_valid = record { distinct = tt; bounded = omega arith };
  },
  IsSound-of_misses (new_graph alive) (λ x y. refl),
)
  where
    Bool_absurd : false ≡ true → ⊥
    Bool_absurd e = cc

-- A new node leaves the cached answers right.
pub add_node-IsSound :
    (n : ℕ) (g : Graph) → contains g n ≡ false → IsSound g → IsSound (add_node n g)
unfolding add_node
add_node-IsSound n g new sound s =
    SoundFor-off s g (add_node n g)
      (AgreeOff-of_same s g (add_node n g) (add_node-SameEdges n g new)) (sound s) (λ u v h. inl h)
