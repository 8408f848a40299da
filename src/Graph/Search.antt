-- ===== src/Graph/Search.antt =====
-- `ObserverGraph::dfs` and `ObserverGraph::hasCycle` (observer_graph.h). The locals `visited` and
-- `recursionStack` are passed on, and the recursion takes fuel.
pub mod Correct
pub mod Fuel
use reaction.Prelude.{
  ℕ, zero, suc, ◌+◌, Bool, true, false, not, ◌||◌, Option, none, some, List, [], ◌∷◌, if◌then◌else◌,
  length, mem, insert, erase, nat_eq,
}
use reaction.Exception.{Result, ok, throw, out_of_fuel}
use reaction.Graph.Caches.{get_cached_cycle_result, cache_cycle_result}
use reaction.Graph.State.{Graph, NodeSet, Op, contains, dependents, link, unlink}

-- What `dfs` returns: true, or false with `visited` and `recursionStack` as they are then.
pub data Visit : Type 0 where
  cycle : Visit
  clear : NodeSet → NodeSet → Visit
  no_fuel : Visit

abbrev pub and_then : Visit → (NodeSet → NodeSet → Visit) → Visit
and_then cycle k = cycle
and_then (clear visited stack) k = k visited stack
and_then no_fuel k = no_fuel

-- A statement about each way in which a search can end.
abbrev pub Holds : Type 0 → Type 0 → (NodeSet → NodeSet → Type 0) → Visit → Type 0
Holds C N P cycle = C
Holds C N P (clear visited stack) = P visited stack
Holds C N P no_fuel = N

pub Holds-and_then :
    (C N : Type 0) (Q : NodeSet → NodeSet → Type 0) {P : NodeSet → NodeSet → Type 0} (r : Visit)
    (k : NodeSet → NodeSet → Visit)
    → Holds C N P r
    → ((visited stack : NodeSet) → P visited stack → Holds C N Q (k visited stack))
    → Holds C N Q (and_then r k)
Holds-and_then C N Q cycle k h f = h
Holds-and_then C N Q (clear visited stack) k h f = f visited stack h
Holds-and_then C N Q no_fuel k h f = h

pub Holds-map :
    (C N : Type 0) {P Q : NodeSet → NodeSet → Type 0} (r : Visit)
    → Holds C N P r
    → ((visited stack : NodeSet) → P visited stack → Q visited stack)
    → Holds C N Q r
Holds-map C N cycle h f = h
Holds-map C N (clear visited stack) h f = f visited stack h
Holds-map C N no_fuel h f = h

-- The loop over the neighbours; an expired one is skipped.
unfoldable pub dfs_neighbors :
    Graph → (ℕ → NodeSet → NodeSet → Visit) → List ℕ → NodeSet → NodeSet → Visit
dfs_neighbors g rec [] visited stack = clear visited stack
dfs_neighbors g rec (n ∷ ns) visited stack = elim (g.alive n) [
  | true ↦ and_then (rec n visited stack) (dfs_neighbors g rec ns)
  | false ↦ dfs_neighbors g rec ns visited stack
]

-- A node that is no key has no neighbours.
unfoldable pub dfs : Graph → ℕ → ℕ → NodeSet → NodeSet → Visit
unfolding dfs_neighbors
dfs g zero node visited stack = no_fuel
dfs g (suc fuel) node visited stack =
    let deeper =
      and_then
        (dfs_neighbors g (dfs g fuel) (dependents g node) (insert node visited) (insert node stack))
        (λ visited' stack'. clear visited' (erase node stack')) in
    if mem node stack then cycle else (if mem node visited then clear visited stack else deeper)

-- Each call pushes a key of `m_dependentList` that was not visited, except the last.
abbrev pub dfs_fuel : Graph → ℕ
dfs_fuel g = suc (length g.dependent_list)

unfoldable pub answer : ℕ → ℕ → ℕ → Graph → Visit → Result Graph Bool
answer now source target g cycle =
    ok true (record g { cycle_cache = cache_cycle_result now source target true g.cycle_cache })
answer now source target g (clear visited stack) =
    ok false (record g { cycle_cache = cache_cycle_result now source target false g.cycle_cache })
answer now source target g no_fuel = out_of_fuel

-- The search with the edge put in for its time.
unfoldable pub search_cycle : ℕ → ℕ → ℕ → Op Bool
unfolding answer
search_cycle now source target g =
    let g' = link source target g in
    answer now source target (unlink source target g') (dfs g' (dfs_fuel g') source [] [])

unfoldable pub has_cycle : ℕ → ℕ → ℕ → Op Bool
unfolding search_cycle
has_cycle now source target g =
    let (cached, cache) = get_cached_cycle_result now source target g.cycle_cache in
    let g' = record g { cycle_cache = cache } in
    if not (contains g source) || not (mem target g.observer_list)
    then ok false g
    else elim cached [ some b ↦ ok b g' | none ↦ search_cycle now source target g' ]
