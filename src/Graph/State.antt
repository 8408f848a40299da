-- ===== src/Graph/State.antt =====
-- The members of `ObserverGraph` and of the nodes in it (observer_graph.h, observer_node.h), and
-- the operations on single edges and nodes.
use Prim.Native.String.{String}
use reaction.Prelude.{
  ℕ, ◌≡◌, ◌≢◌, refl, sym, inl, inr, Bool, Option, none, some, List, [], if◌then◌else◌, nat_beq,
  nat_beq_iff, Bool-cases, if_true, if_false, mem, insert, nat_eq, pair_eq, erase, find, has, put,
  get_or,
}
use reaction.Cache.{invalidate_all_entries, cleanup_old_entries_internal, Stats, get_stats_internal}
use reaction.Exception.{Result, ok, throw, out_of_fuel}
use reaction.Graph.Caches.{
  GraphTraversalCache, CycleDetectionCache, NodeMetricsCache, new_graph_traversal_cache,
  new_cycle_detection_cache, new_node_metrics_cache,
}

-- A node is its address. `NodePtr` may be null.
abbrev pub NodePtr : Type 0
NodePtr = Option ℕ

-- `NodeSet`: weak pointers, each to the node of that address.
abbrev pub NodeSet : Type 0
NodeSet = List ℕ

-- `alive n`: some shared pointer still owns node `n`, so that a weak pointer to it can be locked.
-- `observers n` and `depth n` are the members `m_observers` and `m_depth` of the node itself;
-- `observer_list` holds the keys of `m_observerList`, whose values are references to `observers`.
pub record Graph : Type 0 where
  pub alive : ℕ → Bool
  pub observers : ℕ → NodeSet
  pub depth : ℕ → ℕ
  pub observer_list : NodeSet
  pub dependent_list : List (ℕ × NodeSet)
  pub name_list : List (ℕ × String)
  pub active_batch_nodes : List (ℕ × List ℕ)
  pub active_batch_ids : List ℕ
  pub graph_cache : GraphTraversalCache
  pub cycle_cache : CycleDetectionCache
  pub metrics_cache : NodeMetricsCache

-- The graph before any node is added; the nodes of `alive` exist.
unfoldable pub new_graph : (ℕ → Bool) → Graph
unfolding new_graph_traversal_cache new_cycle_detection_cache new_node_metrics_cache
new_graph alive = record {
  alive = alive;
  observers = λ n. [];
  depth = λ n. 0;
  observer_list = [];
  dependent_list = [];
  name_list = [];
  active_batch_nodes = [];
  active_batch_ids = [];
  graph_cache = new_graph_traversal_cache;
  cycle_cache = new_cycle_detection_cache;
  metrics_cache = new_node_metrics_cache;
}

-- A write to the member of one node.
unfoldable pub update {ℓ} : {A : Type ℓ} → (ℕ → A) → ℕ → A → ℕ → A
update f n a m = if nat_beq n m then a else f m

-- What a write leaves.
pub update_here {ℓ} : {A : Type ℓ} (f : ℕ → A) (n : ℕ) (a : A) → update f n a n ≡ a
unfolding update
update_here f n a = if_true ((nat_beq_iff n n).1 refl) _ _

pub update_away {ℓ} : {A : Type ℓ} (f : ℕ → A) (n u : ℕ) (a : A) → u ≢ n → update f n a u ≡ f u
unfolding update
update_away f n u a away = elim (Bool-cases (nat_beq n u)) [
  | inl same ↦ absurd (away (sym ((nat_beq_iff n u).0 same)))
  | inr other ↦ if_false other _ _
]

-- `m_dependentList.at(node)`, read where the key is known to be there.
abbrev pub dependents : Graph → ℕ → NodeSet
dependents g n = get_or (find n g.dependent_list) []

-- `m_dependentList.contains(node)`
abbrev pub contains : Graph → ℕ → Bool
contains g n = has n g.dependent_list

-- `weak_ptr::lock`
abbrev pub lock : Graph → ℕ → NodePtr
lock g n = if g.alive n then some n else none

-- `m_observers.insert(source)` and `m_observers.erase(source)` of the target.
unfoldable pub add_to_observers : ℕ → ℕ → Graph → Graph
unfolding update
add_to_observers source target g = record g {
  observers = update g.observers target (insert source (g.observers target));
}

unfoldable pub erase_from_observers : ℕ → ℕ → Graph → Graph
unfolding update
erase_from_observers source target g = record g {
  observers = update g.observers target (erase source (g.observers target));
}

-- The edge is written to `m_dependentList` and to the target's observers.
unfoldable pub link : ℕ → ℕ → Graph → Graph
unfolding add_to_observers
link source target g = add_to_observers source target (record g {
  dependent_list = put source (insert target (dependents g source)) g.dependent_list;
})

unfoldable pub unlink : ℕ → ℕ → Graph → Graph
unfolding erase_from_observers
unlink source target g =
    erase_from_observers source target (record g {
      dependent_list = put source (erase target (dependents g source)) g.dependent_list;
    })

-- `addNode` and `addNodeInternal`: a key of `m_observerList` is kept, the dependencies are reset.
unfoldable pub add_node : ℕ → Graph → Graph
add_node node g = record g {
  observer_list = insert node g.observer_list;
  dependent_list = put node [] g.dependent_list;
}

-- The guards of `addObserver` and `addObserverInternal` that add missing nodes.
unfoldable pub add_missing : ℕ → ℕ → Graph → Graph
unfolding add_node
add_missing source target g =
    let g' = if contains g source then g else add_node source g in
    if mem target g'.observer_list then g' else add_node target g'

-- `setName`: `insert` keeps the first name.
unfoldable pub set_name : ℕ → String → Graph → Graph
set_name node name g =
    if has node g.name_list then g else record g { name_list = put node name g.name_list }

-- `getNameInternal`, and so `getName`.
unfoldable pub get_name : Graph → ℕ → String
get_name g node = get_or (find node g.name_list) ""

-- The three calls of `invalidateAll` after a change of the structure.
unfoldable pub invalidate_caches : Graph → Graph
invalidate_caches g = record g {
  graph_cache = invalidate_all_entries g.graph_cache;
  cycle_cache = invalidate_all_entries g.cycle_cache;
  metrics_cache = invalidate_all_entries g.metrics_cache;
}

unfoldable pub trigger_cache_cleanup : ℕ → Graph → Graph
trigger_cache_cleanup now g = record g {
  graph_cache = cleanup_old_entries_internal now g.graph_cache;
  cycle_cache = cleanup_old_entries_internal now g.cycle_cache;
  metrics_cache = cleanup_old_entries_internal now g.metrics_cache;
}

-- `getCacheStats`
unfoldable pub get_cache_stats : Graph → Stats × Stats × Stats
get_cache_stats g = (
  get_stats_internal g.graph_cache,
  get_stats_internal g.cycle_cache,
  get_stats_internal g.metrics_cache,
)

-- An operation on the graph, which may throw.
abbrev pub Op {ℓ} : Type ℓ → Type ℓ
Op A = Graph → Result Graph A

infixl 5 ◌>>=◌ ◌>>◌
abbrev pub ◌>>=◌ {ℓ κ} : {A : Type ℓ} {B : Type κ} → Op A → (A → Op B) → Op B
◌>>=◌ m f g = elim (m g) [ ok a g' ↦ f a g' | throw e g' ↦ throw e g' | out_of_fuel ↦ out_of_fuel ]

abbrev pub ◌>>◌ {ℓ} : {B : Type ℓ} → Op (Unit {0}) → Op B → Op B
m >> k = m >>= λ _. k

abbrev pub modify : (Graph → Graph) → Op (Unit {0})
modify f g = ok tt (f g)
