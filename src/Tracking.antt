-- ===== src/Tracking.antt =====
-- `ReactImpl::set` of a function alone (include/reaction/core/react.h): the nodes that the function
-- reads through their handles become the dependencies of the node. The result type converts.
pub mod Reads
pub mod Tests
use reaction.Prelude.{ℕ, Bool, true, false, Option, none, some, List, [], ◌∷◌, if◌then◌else◌}
use reaction.Exception.{
  Result, ok, throw, out_of_fuel, null_pointer_access_exception, resource_not_initialized_exception,
  batch_operation_conflict_exception,
}
use reaction.Graph.State.{Graph, update}
use reaction.Graph.Batches.{is_node_in_active_batch}
use reaction.Graph.Edit.{add_observer, update_observers_transactional}
use reaction.Memory.{TypeInfo}
use reaction.Factory.{and_then, notify_store}
use reaction.Source.{
  Thrown, reaction_error, Evaluation, returned, raised, Fun, Store, Attempt, failed, no_fuel,
  store_result, catch_source,
}

-- A function of the user, as what it does: it returns, throws, or reads a node by `operator()` and
-- goes on with the value.
pub data Program (V : Type 0) : Type 0 where
  gives : V → Program V
  throws : Thrown → Program V
  reads : ℕ → (V → Program V) → Program V

-- What `getValue` throws for a node without a value.
abbrev pub uninitialized : Thrown
uninitialized = reaction_error (resource_not_initialized_exception "Resource")

abbrev pub expired : Thrown
expired = reaction_error (null_pointer_access_exception "weak pointer lock failed")

module _ {V : Type 0} where
  -- The function outside of a `RegFunGuard`, where the nodes that it reads are there.
  unfoldable pub untracked : Program V → Fun V
  untracked (gives v) values = returned v
  untracked (throws r) values = raised r
  untracked (reads n k) values = elim (values n) [
    | none ↦ raised uninitialized
    | some v ↦ untracked (k v) values
  ]

  -- The function under the `RegFunGuard` of `set`: each read first calls `addObCb`.
  unfoldable pub tracked :
      ℕ → ℕ → (ℕ → Option V) → Program V → Graph → Option (Evaluation V × Graph)
  unfolding add_observer
  tracked now node values (gives v) g = some (returned v, g)
  tracked now node values (throws r) g = some (raised r, g)
  tracked now node values (reads n k) g = elim (g.alive n) [
    | false ↦ some (raised expired, g)
    | true ↦ elim (add_observer now node n g) [
      | throw e g' ↦ some (raised (reaction_error e), g')
      | out_of_fuel ↦ none
      | ok _ g' ↦ elim (values n) [
        | none ↦ some (raised uninitialized, g')
        | some v ↦ tracked now node values (k v) g'
      ]
    ]
  ]

  module _ (t : TypeInfo V) where
    -- `updateValue(evaluateInternal())`, given what the evaluation left.
    unfoldable pub store_tracked : ℕ → Store V → Option (Evaluation V × Graph) → Attempt V
    unfolding store_result
    store_tracked node st none = no_fuel
    store_tracked node st (some (o, g)) = store_result t node (record st { graph = g }) o

    -- The `try` block after `updateObservers`, which is called with no argument.
    unfoldable pub try_tracked : ℕ → ℕ → Program V → Store V → Result Graph (Unit {0}) → Attempt V
    unfolding tracked store_tracked update
    try_tracked now node p st (ok _ g) =
        store_tracked node (record st { graph = g; fun = update st.fun node (some (untracked p)) })
          (tracked now node st.value p g)
    try_tracked now node p st (throw e g) = failed (reaction_error e) (record st { graph = g })
    try_tracked now node p st out_of_fuel = no_fuel

    -- `setSource` under the guard.
    unfoldable pub set_tracked : ℕ → ℕ → Program V → Store V → Attempt V
    unfolding try_tracked catch_source update update_observers_transactional is_node_in_active_batch
    set_tracked now node p st =
        if is_node_in_active_batch st.graph node
        then failed
            (reaction_error (
              batch_operation_conflict_exception
                "Reset operations must be performed outside of batch contexts"))
            st
        else catch_source t now node st (
            try_tracked now node p (record st { fun = update st.fun node none })
              (update_observers_transactional now (some node) [] st.graph))

    -- `ReactImpl::set` of a function alone: the guard ends before the notification.
    unfoldable pub set_reading : ℕ → ℕ → ℕ → Program V → Store V → Attempt V
    unfolding set_tracked and_then notify_store
    set_reading now fuel node p st =
        and_then (notify_store t fuel node true) (set_tracked now node p st)
