-- ===== src/Graph/SearchCycle.antt =====
-- What the search of `hasCycle` answers and leaves (include/reaction/graph/observer_graph.h).
use reaction.Prelude.{
  ℕ, [], ◌≡◌, ◌↔◌, refl, ap, ◌⊎◌, inl, inr, Bool, true, false, not, ◌&&◌, Option, none, some,
  nat_eq, pair_eq, nat_beq, nat_beq_iff, mem, arith,
}
use mathlib.Core.Path.{subst}
use reaction.Prelude.Walks.{
  Reach, Grounded, Grounded-not-Walk, Walk-split, Walk-of_edge, Reach-map, Reach-trans,
}
use reaction.Cache
use reaction.Exception.{ok}
use reaction.Graph.Caches.{cache_cycle_result}
use reaction.Graph.State.{Graph, NodeSet, contains, dependents, link, unlink}
use reaction.Graph.Edges.{
  Edge, mem-link, mem-unlink, mem-observers-link, mem-observers-unlink, Edge-link, Edge-of_link,
  Edge-link_new,
}
use reaction.Graph.Invariant.{
  IsWellFormed, Keeps, IsWellFormed-of_fewer, contains-link, contains-unlink,
}
use reaction.Graph.Search.{Visit, cycle, clear, no_fuel, dfs, dfs_fuel, answer, search_cycle}
use reaction.Graph.Search.Correct.{HasCycle, Searched, After, dfs_lem}
use reaction.Graph.Search.Fuel.{dfs_enough_fuel}

-- What the cycle cache would answer for a pair.
abbrev pub cached_cycle : Graph → ℕ → ℕ → Option Bool
cached_cycle g s t = Cache.Laws.peek (s, t) g.cycle_cache

-- The search from `s` to `t` answered `b` on `g` and left `g'`.
pub record Answered (s t : ℕ) (g : Graph) (b : Bool) (g' : Graph) : Type 0 where
  pub valid : IsWellFormed g'
  pub keeps : Keeps g g'
  pub keys : (n : ℕ) → contains g' n ≡ contains g n
  pub fewer : (x y : ℕ) → mem y (dependents g' x) ≡ true → mem y (dependents g x) ≡ true
  pub rest :
      (x y : ℕ)
      → (nat_beq s x && nat_beq t y) ≡ false
      → mem y (dependents g' x) ≡ mem y (dependents g x)
  pub tried : cached_cycle g s t ≡ none → mem t (dependents g' s) ≡ false
  pub exact : (b ≡ true) ↔ Reach (Edge g) t s
  pub remembers :
      (x y : ℕ) (v : Bool)
      → cached_cycle g' x y ≡ some v
      → (cached_cycle g x y ≡ some v) ⊎ (x ≡ s) × (y ≡ t) × (v ≡ b)

Visit-cases :
    (v : Visit) → (v ≡ cycle) ⊎ ((a : NodeSet) × (b : NodeSet) × (v ≡ clear a b)) ⊎ (v ≡ no_fuel)
Visit-cases cycle = inl refl
Visit-cases (clear a b) = inr (inl (a, b, refl))
Visit-cases no_fuel = inr (inr refl)

module _ (s t : ℕ) (g : Graph) (w : IsWellFormed g) (ks : contains g s ≡ true)
    (kt : contains g t ≡ true) where
  abbrev with_edge : Graph
  with_edge = link s t g

  abbrev visit : Visit
  visit = dfs with_edge (dfs_fuel with_edge) s [] []

  dfs_from_start : Searched with_edge (Grounded (Edge with_edge) s) [] visit
  unfolding mem
  dfs_from_start = dfs_lem with_edge (dfs_fuel with_edge) s [] [] (λ b seen. cc) (λ x on. cc)

  cycle_means : visit ≡ cycle → Reach (Edge g) t s
  cycle_means e =
      let found : HasCycle with_edge =
        subst (Searched with_edge (Grounded (Edge with_edge) s) []) e dfs_from_start in
      elim (Walk-split s t (Edge-link s t g) found.1) [
        | inl old ↦ absurd (Grounded-not-Walk (w.acyclic found.0) old)
        | inr (to, from) ↦ Reach-trans from to
      ]

  clear_means : (a b : NodeSet) → visit ≡ clear a b → ¬ Reach (Edge g) t s
  clear_means a b e r =
      let done : After with_edge (Grounded (Edge with_edge) s) [] a b =
        subst (Searched with_edge (Grounded (Edge with_edge) s) []) e dfs_from_start in
      Grounded-not-Walk done.safe
        (Walk-of_edge (Edge-link_new s t g (w.owned t kt)) (Reach-map (Edge-of_link s t g) r))

  -- The graph after the edge was put in and taken out, with the answer in the cache.
  abbrev left : ℕ → Bool → Graph
  left now b =
      let g' = unlink s t with_edge in
      record g' { cycle_cache = cache_cycle_result now s t b g'.cycle_cache }

  mem-left :
      (now : ℕ) (b : Bool) (x y : ℕ)
      → mem y (dependents (left now b) x)
        ≡ (not (nat_beq s x && nat_beq t y) && mem y (dependents g x))
  mem-left now b x y = ground (arith, mem-unlink s t with_edge x y, mem-link s t g x y)

  contains-left : (now : ℕ) (b : Bool) (n : ℕ) → contains (left now b) n ≡ contains g n
  contains-left now b n =
      ground (arith, contains-unlink s t n with_edge, contains-link s t n g, nat_beq_iff s n)

  left_cache :
      (now : ℕ) (b : Bool) → (left now b).cycle_cache ≡ Cache.cache_value now (s, t) b g.cycle_cache
  unfolding link unlink cache_cycle_result
  left_cache now b = refl

  left-Keeps : (now : ℕ) (b : Bool) → Keeps g (left now b)
  unfolding link unlink
  left-Keeps now b = record {
    alive = λ n. refl;
    depth = λ n. refl;
    name_list = refl;
    active_batch_nodes = refl;
    active_batch_ids = refl;
  }

  left_list : (now : ℕ) (b : Bool) → (left now b).observer_list ≡ g.observer_list
  unfolding link unlink
  left_list now b = refl

  left-Answered :
      (now : ℕ) (b : Bool) → ((b ≡ true) ↔ Reach (Edge g) t s) → Answered s t g b (left now b)
  left-Answered now b right = record {
    valid =
        IsWellFormed-of_fewer g (left now b) w (left-Keeps now b).alive (contains-left now b)
          (λ n. ap (mem n) (left_list now b))
          (λ x y. ground (
            arith,
            mem-observers-unlink s t with_edge x y,
            mem-observers-link s t g x y,
            mem-left now b x y,
            w.symmetric x y,
          ))
          (λ x y h. ground (arith, mem-left now b x y))
          (rw (left_cache now b)
            (Cache.Laws.cache_value_lem now (s, t) b (s, t) g.cycle_cache w.cycle_cache_valid).0);
    keeps = left-Keeps now b;
    keys = contains-left now b;
    fewer = λ x y h. ground (arith, mem-left now b x y);
    rest = λ x y other. ground (arith, mem-left now b x y);
    tried = λ miss. ground (arith, mem-left now b s t, nat_beq_iff s s, nat_beq_iff t t);
    exact = right;
    remembers = λ x y v h.
        let h' : Cache.Laws.peek (x, y) (Cache.cache_value now (s, t) b g.cycle_cache) ≡ some v =
          subst (λ c. Cache.Laws.peek (x, y) c ≡ some v) (left_cache now b) h in
        ground (
          arith,
          (Cache.Laws.cache_value_lem now (s, t) b (x, y) g.cycle_cache w.cycle_cache_valid).1,
        );
  }

  -- The search ends with an answer, and the answer is right.
  pub search_cycle_lem :
      (now : ℕ)
      → (b : Bool) × (g' : Graph) × (search_cycle now s t g ≡ ok b g') × Answered s t g b g'
  unfolding search_cycle answer
  search_cycle_lem now = elim (Visit-cases visit) [
    | inl found ↦
        (true, left now true, rw found, left-Answered now true (λ _. cycle_means found, λ _. refl))
    | inr (inl (a, b, none_found)) ↦ (
      false,
      left now false,
      rw none_found,
      left-Answered now false (λ e. cc, λ r. absurd (clear_means a b none_found r)),
    )
    | inr (inr stuck) ↦ absurd (dfs_enough_fuel with_edge s stuck)
  ]
