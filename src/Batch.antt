-- ===== src/Batch.antt =====
-- include/reaction/graph/batch.h: writes that are made together, after which each dependent node is
-- recomputed once. The function of a batch is the sequence of the `value` calls that it makes, the
-- same on each run; each call locks its weak pointer (include/reaction/core/react.h).
pub mod Sort
pub mod Nodes
pub mod Order
pub mod Whole
pub mod Calls
pub mod Tests
use reaction.Prelude.{
  ℕ, zero, Bool, true, false, not, Option, none, some, List, [], ◌∷◌, if◌then◌else◌, ltb, nat_eq,
}
use reaction.Exception.{
  Result, ok, throw, out_of_fuel, ReactionException, null_pointer_access_exception,
}
use reaction.Graph.State.{Graph, NodeSet}
use reaction.Graph.Collect.{Collected, collect_observers}
use reaction.Graph.Batches.{register_active_batch, unregister_active_batch}
use reaction.Propagation.{Network, State, set_value, changed_no_notify}

-- `BatchCompare`
unfoldable pub batch_compare : Graph → ℕ → ℕ → Bool
batch_compare g left right =
    if g.alive left
    then if g.alive right then ltb (g.depth left) (g.depth right) else false
    else g.alive right

-- `insert` of a `multiset`: before the first element that is greater.
unfoldable pub multiset_insert : Graph → ℕ → List ℕ → List ℕ
unfolding batch_compare
multiset_insert g n [] = n ∷ []
multiset_insert g n (m ∷ ms) =
    let rest = multiset_insert g n ms in if batch_compare g n m then n ∷ m ∷ ms else m ∷ rest

-- The loop of the constructor that fills `m_batchNodes`.
unfoldable pub order_nodes : Graph → NodeSet → List ℕ → List ℕ
unfolding multiset_insert
order_nodes g [] nodes = nodes
order_nodes g (n ∷ ns) nodes = order_nodes g ns (multiset_insert g n nodes)

-- The members of `Batch`; the function is the sequence of its calls.
pub record Batch (C : Type 0) : Type 0 where
  pub observers : NodeSet
  pub batch_nodes : List ℕ
  pub fun : List C
  pub batch_id : ℕ
  pub is_closed : Bool

-- `getPtr` of a handle whose node is gone.
abbrev pub lock_failed : ReactionException
lock_failed = null_pointer_access_exception "weak pointer lock failed"

-- The call of `g_batch_fun` in `React::value`, given what the collection returned.
unfoldable pub collected_then :
    (NodeSet → Graph → Result Graph NodeSet) → Collected → Result Graph NodeSet
collected_then k none = out_of_fuel
collected_then k (some (observers, g)) = k observers g

-- The end of the constructor.
unfoldable pub construct : {C : Type 0} → ℕ → List C → Result Graph NodeSet → Result Graph (Batch C)
unfolding order_nodes
construct batch_id fun (ok observers g) =
    ok
      (record {
        observers = observers;
        batch_nodes = order_nodes g observers [];
        fun = fun;
        batch_id = batch_id;
        is_closed = false;
      })
      (register_active_batch batch_id observers g)
construct batch_id fun (throw e g) = throw e g
construct batch_id fun out_of_fuel = out_of_fuel

-- `close` and the destructor.
unfoldable pub close : {C : Type 0} → Batch C → Graph → Batch C × Graph
close b g =
    if b.is_closed
    then (b, g)
    else (record b { is_closed = true }, unregister_active_batch b.batch_id g)

module _ {V : Type 0} where
  -- The first run of the function, under `BatchFunGuard`: no value is written.
  unfoldable pub collect_values : ℕ → ℕ → List (ℕ × V) → NodeSet → Graph → Result Graph NodeSet
  unfolding collected_then
  collect_values now fuel [] observers g = ok observers g
  collect_values now fuel ((n, v) ∷ calls) observers g =
      let rest =
        collected_then (collect_values now fuel calls)
          (collect_observers now fuel n observers 1 g) in
      if g.alive n then rest else throw lock_failed g

  -- The constructor.
  unfoldable pub new_batch : ℕ → ℕ → ℕ → List (ℕ × V) → Graph → Result Graph (Batch (ℕ × V))
  unfolding collect_values construct
  new_batch now fuel batch_id fun g = construct batch_id fun (collect_values now fuel fun [] g)

module _ {V : Type 0} (net : Network V) where
  -- The second run of the function, under `BatchExeGuard`: values are written, no one is notified.
  unfoldable pub run_values : Graph → List (ℕ × V) → State V → Result (State V) (Unit {0})
  run_values g [] s = ok tt s
  run_values g ((n, v) ∷ calls) s = elim (g.alive n) [
    | false ↦ throw lock_failed s
    | true ↦ elim (set_value net zero true n v s) [
      | none ↦ out_of_fuel
      | some s' ↦ run_values g calls s'
    ]
  ]

  -- The loop over `m_batchNodes`; `changedNoNotify` is called with its default argument.
  unfoldable pub change_nodes : Graph → List ℕ → State V → State V
  change_nodes g [] s = s
  change_nodes g (n ∷ ns) s =
      change_nodes g ns (if g.alive n then changed_no_notify net (net.kind n) n true s else s)

  unfoldable pub then_change :
      Graph → List ℕ → Result (State V) (Unit {0}) → Result (State V) (Unit {0})
  unfolding change_nodes
  then_change g nodes (ok _ s) = ok tt (change_nodes g nodes s)
  then_change g nodes (throw e s) = throw e s
  then_change g nodes out_of_fuel = out_of_fuel

  -- `execute`
  unfoldable pub execute : Graph → Batch (ℕ × V) → State V → Result (State V) (Unit {0})
  unfolding run_values then_change
  execute g b s = then_change g b.batch_nodes (run_values g b.fun s)
