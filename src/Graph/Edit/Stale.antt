-- ===== src/Graph/Edit/Stale.antt =====
-- A cached answer that is no longer right: `addObserverInternal` of observer_graph.h believes it.
use reaction.Prelude.{ℕ, ◌≡◌, ap, ◌∙◌, Bool, true, false, some, nat_eq, nat_beq, mem}
use reaction.Prelude.Walks.{Walk, Reach, Walk-of_edge, Reach-map}
use reaction.Exception.{ok}
use reaction.Graph.State.{Graph, ◌>>=◌, contains, dependents, link, add_missing}
use reaction.Graph.Edges.{Edge, Edge-of_link, Edge-link_new}
use reaction.Graph.HasCycle.{has_cycle_hit}
use reaction.Graph.SearchCycle.{cached_cycle}
use reaction.Graph.Edit.{commit, add_edge, add_observer_internal}

module _ (now s t : ℕ) (g : Graph) (distinct : nat_beq s t ≡ false) (ks : contains g s ≡ true)
    (kt : mem t g.observer_list ≡ true) where
  nothing_missing : add_missing s t g ≡ g
  unfolding add_missing
  nothing_missing = rw (ks, kt)

  -- With a cached "no cycle" for two distinct known nodes, `addObserverInternal` adds the edge
  -- even if the target already leads to the source, and so closes a cycle: if the cached answer
  -- is stale, the check for cycles is lost.
  pub stale_hit_closes_cycle :
      g.alive t ≡ true
      → cached_cycle g s t ≡ some false
      → Reach (Edge g) t s
      → (g' : Graph) × (add_observer_internal now s t g ≡ ok tt g') × Walk (Edge g') s s
  unfolding add_observer_internal add_edge commit
  stale_hit_closes_cycle live hit back =
      let (h, e, deps, alive) = has_cycle_hit now s t g false ks kt hit in
      let unchanged : (x y : ℕ) → Edge g x y → Edge h x y = λ x y p. (
        ap (λ m. mem y (dependents (record g { dependent_list = m }) x)) deps ∙ p.0,
        ap (λ (f : ℕ → Bool). f y) alive ∙ p.1,
      ) in
      (
        link s t h,
        rw (distinct, ◌>>=◌, nothing_missing, e),
        Walk-of_edge (Edge-link_new s t h (ap (λ (f : ℕ → Bool). f t) alive ∙ live))
            (Reach-map (λ x y p. Edge-of_link s t h x y (unchanged x y p)) back),
      )
