-- ===== src/Graph/Batches.antt =====
-- The registry of active batches of `ObserverGraph` (observer_graph.h).
pub mod Registry
pub mod Release
use reaction.Prelude.{
  ℕ, Bool, true, false, none, some, List, [], ◌∷◌, if◌then◌else◌, nat_eq, insert, erase, find, put,
  get_or,
}
use reaction.Graph.State.{Graph, NodeSet}

-- `m_activeBatchNodes[node].insert(batchId)` for each node that is not expired.
unfoldable pub protect : ℕ → NodeSet → Graph → Graph
protect batch_id [] g = g
protect batch_id (n ∷ ns) g =
    let ids = insert batch_id (get_or (find n g.active_batch_nodes) []) in
    protect batch_id ns
      (if g.alive n then record g { active_batch_nodes = put n ids g.active_batch_nodes } else g)

-- `registerActiveBatch`
unfoldable pub register_active_batch : ℕ → NodeSet → Graph → Graph
unfolding protect
register_active_batch batch_id nodes g =
    let g' = protect batch_id nodes g in
    record g' { active_batch_ids = insert batch_id g'.active_batch_ids }

unfoldable pub is_empty : List ℕ → Bool
is_empty [] = true
is_empty (x ∷ xs) = false

-- The loop that erases the batch from every node, and a node with no batch left.
unfoldable pub unprotect : ℕ → List (ℕ × List ℕ) → List (ℕ × List ℕ)
unfolding is_empty
unprotect batch_id [] = []
unprotect batch_id ((n, ids) ∷ m) =
    let left = erase batch_id ids in
    let rest = unprotect batch_id m in if is_empty left then rest else (n, left) ∷ rest

-- `unregisterActiveBatch`
unfoldable pub unregister_active_batch : ℕ → Graph → Graph
unfolding unprotect
unregister_active_batch batch_id g = record g {
  active_batch_ids = erase batch_id g.active_batch_ids;
  active_batch_nodes = unprotect batch_id g.active_batch_nodes;
}

-- `isNodeInActiveBatch`
unfoldable pub is_node_in_active_batch : Graph → ℕ → Bool
unfolding is_empty
is_node_in_active_batch g node = elim (find node g.active_batch_nodes) [
  | none ↦ false
  | some ids ↦ if is_empty ids then false else true
]
