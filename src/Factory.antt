-- ===== src/Factory.antt =====
-- `calc` (include/reaction/factory/reactive_factory.h): a new node gets its first source by
-- `ReactImpl::set` (include/reaction/core/react.h). Nodes have the trigger `ChangeTrig`, the
-- default of the factory, and a value: the flag is read only where it was written just before.
pub mod Calc
pub mod Tests
use reaction.Prelude.{ℕ, zero, suc, Bool, true, false, Option, none, some, List, [], ◌∷◌}
use reaction.Graph.State.{Graph, NodeSet, update, add_node}
use reaction.Memory.{TypeInfo}
use reaction.Memory.Impl.{impl_update_value}
use reaction.Source.{
  Thrown, Evaluation, returned, raised, Fun, Store, Attempt, finished, failed, no_fuel,
  evaluate_internal, set_source,
}

abbrev pub NotifyStore : Type 0 → Type 0
NotifyStore V = ℕ → Bool → Store V → Attempt V

module _ {V : Type 0} where
  -- What follows a call that may throw.
  unfoldable pub and_then : (Store V → Attempt V) → Attempt V → Attempt V
  and_then k (finished st) = k st
  and_then k (failed r st) = failed r st
  and_then k no_fuel = no_fuel

  module _ (t : TypeInfo V) where
    -- `updateValue` of the result of `evaluate`, and `notify`.
    unfoldable pub store_and_notify : NotifyStore V → ℕ → Store V → Evaluation V → Attempt V
    unfolding update
    store_and_notify notify n st (returned v) =
        let (change, v') = impl_update_value t v (st.value n) in
        notify n change (record st { value = update st.value n v' })
    store_and_notify notify n st (raised r) = failed r st

    -- `valueChanged` and `handleChange<true>`
    unfoldable pub store_changed : NotifyStore V → ℕ → Bool → Store V → Attempt V
    unfolding store_and_notify evaluate_internal
    store_changed notify n false st = finished st
    store_changed notify n true st =
        store_and_notify notify n st (evaluate_internal t (st.fun n) st.value)

    -- The loop of `notify`.
    unfoldable pub notify_stores : NotifyStore V → Bool → NodeSet → Store V → Attempt V
    unfolding store_changed and_then
    notify_stores notify changed [] st = finished st
    notify_stores notify changed (n ∷ ns) st = elim (st.graph.alive n) [
      | false ↦ notify_stores notify changed ns st
      | true ↦ and_then (notify_stores notify changed ns) (store_changed notify n changed st)
    ]

    -- `notify`
    unfoldable pub notify_store : ℕ → ℕ → Bool → Store V → Attempt V
    unfolding notify_stores
    notify_store zero n changed st = no_fuel
    notify_store (suc fuel) n changed st =
        notify_stores (notify_store fuel) changed (st.graph.observers n) st

    -- `ReactImpl::set` with explicit arguments.
    unfoldable pub set_function : Bool → ℕ → ℕ → ℕ → List ℕ → Fun V → Store V → Attempt V
    unfolding set_source notify_store and_then
    set_function convertible now fuel node args f st =
        and_then (notify_store fuel node true) (set_source t convertible now node args f st)

    -- `calc`
    unfoldable pub calc : ℕ → ℕ → ℕ → List ℕ → Fun V → Store V → Attempt V
    unfolding set_function add_node
    calc now fuel node args f st =
        set_function true now fuel node args f (record st { graph = add_node node st.graph })
