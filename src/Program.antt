-- ===== src/Program.antt =====
-- What a program does with its handles while the edges stay: calls of `value` and of the operators
-- that assign (include/reaction/core/react.h), and `batchExecute`
-- (include/reaction/factory/reactive_factory.h), one after the other.
pub mod Sound
pub mod Correct
pub mod Tests
use reaction.Prelude.{ℕ, true, false, Option, none, List, [], ◌∷◌, if◌then◌else◌}
use reaction.Propagation.{Network, set_value}
use reaction.Assign.{Ending, returned, thrown, ended, react_change}
use reaction.Batch.{lock_failed}
use reaction.Batch.Calls.{
  World, BatchCall, sets, changes, all_sets, then_run, with_state, react_value, batch_execute,
}

-- A call outside a batch, or a batch of `value` calls, with the clock and the address of the batch.
pub data Action : Type 0 where
  calls : BatchCall → Action
  executes : ℕ → ℕ → List (ℕ × ℕ) → Action

module _ (w : ℕ) (net : Network ℕ) (fuel : ℕ) where
  -- `React::value` and the operators, where no batch is active.
  unfoldable pub call : BatchCall → World → Ending World (Unit {0})
  unfolding with_state react_value
  call (sets n v) x = react_value w net fuel none false tt n v x
  call (changes n c) x = with_state tt x (react_change w net x.graph.alive fuel false c n x.state)

  unfoldable pub act : Action → World → Ending World (Unit {0})
  unfolding call
  act (calls c) x = call c x
  act (executes now batch_id writes) x = batch_execute w net fuel now batch_id (all_sets writes) x

  unfoldable pub act_all : List Action → World → Ending World (Unit {0})
  unfolding act then_run
  act_all [] x = returned tt x
  act_all (a ∷ rest) x = then_run (act a x) (λ _ y. act_all rest y)
