-- ===== src/Graph/Diamond.antt =====
-- A graph of a variable and two calculations (observer_graph.h), well-formed, for the tests.
use reaction.Prelude.{
  ℕ, zero, suc, ◌+◌, ◌^◌, ◌<◌, ◌≡◌, refl, inr, true, none, some, [], ◌∷◌, nat_eq, pair_eq, mem,
  find, arith,
}
use reaction.Prelude.Walks.{Grounded, grounded}
use reaction.Cache.Laws.{peek}
use reaction.Graph.State.{Graph, new_graph, dependents}
use reaction.Graph.Edges.{Edge}
use reaction.Graph.Invariant.{IsWellFormed}
use reaction.Graph.Collect.Visit.{IsCacheRight}
use reaction.Graph.Collect.Depths.{IsLevelled}
use reaction.Propagation.Tests.{readers, rank}

-- Node 1 depends on node 0, and node 2 on both.
abbrev pub diamond_graph : Graph
diamond_graph = record (new_graph (λ n. true)) {
  observers = readers;
  observer_list = 0 ∷ 1 ∷ 2 ∷ [];
  dependent_list = (0, []) ∷ (1, 0 ∷ []) ∷ (2, 1 ∷ 0 ∷ []) ∷ [];
}

diamond_symmetric : (a b : ℕ) → mem a (readers b) ≡ mem b (dependents diamond_graph a)
unfolding mem find new_graph
diamond_symmetric a zero = ground arith
diamond_symmetric a (suc zero) = ground arith
diamond_symmetric a (suc (suc b)) = ground arith

edges_fall : (a b : ℕ) → mem b (dependents diamond_graph a) ≡ true → b < a
unfolding mem find new_graph
edges_fall a b h = ground arith

Grounded-below : (n a : ℕ) → a < n → Grounded (Edge diamond_graph) a
Grounded-below zero a h = absurd (none h)
  where
    none : {a : ℕ} → a < 0 → ⊥
    none h = omega arith
Grounded-below (suc n) a h = grounded a λ b e. Grounded-below n b (lower (edges_fall a b e.0) h)
  where
    lower : {a b n : ℕ} → b < a → a < suc n → b < n
    lower h k = omega arith

pub diamond_graph-IsWellFormed : IsWellFormed diamond_graph
unfolding mem find new_graph
diamond_graph-IsWellFormed = record {
  symmetric = diamond_symmetric;
  same_keys = λ n. ground arith;
  known = λ a b h. ground arith;
  owned = λ n h. refl;
  acyclic = λ n. Grounded-below (suc n) n (omega arith);
  cycle_cache_valid = record { distinct = tt; bounded = omega arith };
}

pub diamond_graph-IsCacheRight : IsCacheRight diamond_graph diamond_graph.graph_cache
unfolding new_graph peek find
diamond_graph-IsCacheRight = record {
  valid = record { distinct = tt; bounded = omega arith };
  right = λ n cur e. absurd (missing e);
}
  where
    missing : {A : Type 0} {a : A} → none ≡ some a → ⊥
    missing e = cc

pub diamond_graph-IsLevelled : IsLevelled diamond_graph diamond_graph.depth
unfolding new_graph
diamond_graph-IsLevelled u = inr refl

pub small_rank : (n : ℕ) → rank n + 1 < 2 ^ 16
small_rank zero = omega arith
small_rank (suc zero) = omega arith
small_rank (suc (suc n)) = omega arith
