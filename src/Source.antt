-- ===== src/Source.antt =====
-- `CalcExprBase::setSource` (include/reaction/expression/expression.h): a node gets a new function
-- and new dependencies, and all of it is taken back when something throws.
pub mod Rollback
pub mod Ends
pub mod Agree
pub mod Tests
use reaction.Prelude.{
  ℕ, Bool, true, false, not, ◌&&◌, Option, none, some, List, [], ◌∷◌, if◌then◌else◌, map,
}
use reaction.Exception.{
  Result, ok, throw, out_of_fuel, ReactionException, batch_operation_conflict_exception,
  type_mismatch_exception, null_pointer_access_exception,
}
use reaction.Graph.State.{Graph, NodePtr, NodeSet, update, Op}
use reaction.Graph.Batches.{is_node_in_active_batch}
use reaction.Graph.Edit.{update_observers_transactional, save_node_state_for_rollback}
use reaction.Memory.{TypeInfo}
use reaction.Memory.Impl.{impl_update_value}

-- What C++ code throws: an exception of this library, another `std::exception`, or neither.
pub data Thrown : Type 0 where
  reaction_error : ReactionException → Thrown
  std_error foreign_error : Thrown

-- `catch (const std::exception &)`
unfoldable pub is_std : Thrown → Bool
is_std (reaction_error e) = true
is_std std_error = true
is_std foreign_error = false

pub data Evaluation (V : Type 0) : Type 0 where
  returned : V → Evaluation V
  raised : Thrown → Evaluation V

-- The stored function reads the values of its arguments, and may throw.
abbrev pub Fun : Type 0 → Type 0
Fun V = (ℕ → Option V) → Evaluation V

-- The graph, the values of all nodes, and their members `m_fun`.
pub record Store (V : Type 0) : Type 0 where
  pub graph : Graph
  pub value : ℕ → Option V
  pub fun : ℕ → Option (Fun V)

pub data Attempt (V : Type 0) : Type 0 where
  finished : Store V → Attempt V
  failed : Thrown → Store V → Attempt V
  no_fuel : Attempt V

-- The pointers that `args.getPtr()` gives.
abbrev pub pointers : List ℕ → List NodePtr
pointers = map (λ n. some n)

-- Whether every handle can be locked.
unfoldable pub all_lock : Graph → List ℕ → Bool
all_lock g [] = true
all_lock g (n ∷ ns) = g.alive n && all_lock g ns

module _ {V : Type 0} (t : TypeInfo V) where
  -- `evaluateInternal`: the function that is stored, on the values that are there.
  unfoldable pub evaluate_internal : Option (Fun V) → (ℕ → Option V) → Evaluation V
  evaluate_internal none values =
      raised (reaction_error (null_pointer_access_exception "function not initialized"))
  evaluate_internal (some f) values = f values

  -- `updateValue(evaluateInternal())`
  unfoldable pub store_result : ℕ → Store V → Evaluation V → Attempt V
  unfolding update
  store_result node st (returned v) =
      finished
        (record st { value = update st.value node (impl_update_value t v (st.value node)).1 })
  store_result node st (raised r) = failed r st

  -- The `try` block after `updateObservers`.
  unfoldable pub replace_fun : ℕ → Fun V → Store V → Result Graph (Unit {0}) → Attempt V
  unfolding store_result evaluate_internal update
  replace_fun node f st (ok _ g) =
      let st' = record st { graph = g; fun = update st.fun node (some f) } in
      store_result node st' (evaluate_internal (st'.fun node) st'.value)
  replace_fun node f st (throw e g) = failed (reaction_error e) (record st { graph = g })
  replace_fun node f st out_of_fuel = no_fuel

  -- The `try` block: `createFun` locks the handles, `updateObservers` writes the dependencies.
  unfoldable pub try_source : ℕ → ℕ → List ℕ → Fun V → Store V → Attempt V
  unfolding replace_fun all_lock
  try_source now node args f st =
      if all_lock st.graph args
      then replace_fun node f st
          (update_observers_transactional now (some node) (pointers args) st.graph)
      else failed (reaction_error (null_pointer_access_exception "weak pointer lock failed")) st

  -- `if (originalValue.has_value()) updateValue(*originalValue)`
  unfoldable pub restore_value : Option V → Option V → Option V
  restore_value none current = current
  restore_value (some v) current = (impl_update_value t v current).1

  -- The end of the `catch` block: what `observerRollback` throws takes the exception's place.
  unfoldable pub rethrow : Thrown → Store V → Result Graph (Unit {0}) → Attempt V
  rethrow r st (ok _ g) = failed r (record st { graph = g })
  rethrow r st (throw e g) = failed (reaction_error e) (record st { graph = g })
  rethrow r st out_of_fuel = no_fuel

  -- The `catch` block, for the store before the attempt.
  unfoldable pub catch_source : ℕ → ℕ → Store V → Attempt V → Attempt V
  unfolding rethrow restore_value is_std update
  catch_source now node old (finished st) = finished st
  catch_source now node old no_fuel = no_fuel
  catch_source now node old (failed r st) =
      if is_std r
      then rethrow r
          (record st {
            value = update st.value node (restore_value (old.value node) (st.value node));
            fun = update st.fun node (old.fun node);
          })
          (save_node_state_for_rollback now old.graph (some node) st.graph)
      else failed r st

  -- `setSource`; `convertible` is the test of the result type, at compile time.
  unfoldable pub set_source : Bool → ℕ → ℕ → List ℕ → Fun V → Store V → Attempt V
  unfolding try_source catch_source update
  set_source convertible now node args f st =
      if not convertible
      then failed (reaction_error (type_mismatch_exception "" "")) st
      else if is_node_in_active_batch st.graph node
      then failed
          (reaction_error (
            batch_operation_conflict_exception
              "Reset operations must be performed outside of batch contexts"))
          st
      else catch_source now node st
          (try_source now node args f (record st { fun = update st.fun node none }))
