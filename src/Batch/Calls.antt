-- ===== src/Batch/Calls.antt =====
-- `batchExecute` (include/reaction/factory/reactive_factory.h) of a function that makes any calls:
-- of `value`, and of the operators that assign (include/reaction/core/react.h). The first run of
-- the function, in the constructor of `Batch` (include/reaction/graph/batch.h), is under
-- `BatchFunGuard`, which `value` asks about and the operators do not; the second, in `execute`, is
-- under `BatchExeGuard`.
pub mod Twice
pub mod Sets
pub mod Immediate
pub mod Tests
use reaction.Prelude.{ℕ, Bool, true, false, Option, none, some, List, [], ◌∷◌, if◌then◌else◌}
use reaction.Exception.{ReactionException}
use reaction.Graph.State.{Graph, NodeSet}
use reaction.Graph.Collect.{Collected, collect_observers}
use reaction.Graph.Batches.{register_active_batch}
use reaction.Propagation.{Network, State, set_value}
use reaction.Assign.{
  Change, Ending, returned, thrown, undefined_behaviour, no_fuel, ended, react_change,
}
use reaction.Batch.{Batch, lock_failed, order_nodes, close, change_nodes}

-- The graph, and the values of the nodes.
pub record World : Type 0 where
  pub graph : Graph
  pub state : State ℕ

pub data BatchCall : Type 0 where
  sets : ℕ → ℕ → BatchCall
  changes : ℕ → Change → BatchCall

-- Calls of `value`.
unfoldable pub all_sets : List (ℕ × ℕ) → List BatchCall
all_sets [] = []
all_sets ((n, v) ∷ calls) = sets n v ∷ all_sets calls

-- What follows a call that returns.
unfoldable pub then_run : {S A B : Type 0} → Ending S A → (A → S → Ending S B) → Ending S B
then_run (returned a s) k = k a s
then_run (thrown e s) k = thrown e s
then_run undefined_behaviour k = undefined_behaviour
then_run no_fuel k = no_fuel

unfoldable pub collected : World → Collected → Ending World NodeSet
collected x none = no_fuel
collected x (some (observers, g)) = returned observers (record x { graph = g })

-- The values after a call, in the world.
unfoldable pub with_state : {A B : Type 0} → B → World → Ending (State ℕ) A → Ending World B
with_state b x (returned a s) = returned b (record x { state = s })
with_state b x (thrown e s) = thrown e (record x { state = s })
with_state b x undefined_behaviour = undefined_behaviour
with_state b x no_fuel = no_fuel

module _ (w : ℕ) (net : Network ℕ) (fuel : ℕ) where
  -- `React::value`; `batch_fun` and `batch_execute` are the thread's `g_batch_fun` and
  -- `g_batch_execute`, and `a` is what the call answers.
  unfoldable pub react_value :
      {A : Type 0} → Option (ℕ → World → Ending World A) → Bool → A → ℕ → ℕ → World → Ending World A
  unfolding with_state ended
  react_value batch_fun batch_execute a n v x =
      if x.graph.alive n
      then elim batch_fun [
        | some f ↦ f n x
        | none ↦ with_state a x (ended tt (set_value net fuel batch_execute n v x.state))
      ]
      else thrown lock_failed x

  -- A call under `BatchFunGuard`.
  unfoldable pub collect_call : ℕ → BatchCall → NodeSet → World → Ending World NodeSet
  unfolding collected with_state react_value
  collect_call now (sets n v) observers x =
      react_value (some (λ m y. collected y (collect_observers now fuel m observers 1 y.graph)))
        false observers n v x
  collect_call now (changes n c) observers x =
      with_state observers x (react_change w net x.graph.alive fuel false c n x.state)

  unfoldable pub collect_calls : ℕ → List BatchCall → NodeSet → World → Ending World NodeSet
  unfolding collect_call then_run
  collect_calls now [] observers x = returned observers x
  collect_calls now (c ∷ cs) observers x =
      then_run (collect_call now c observers x) (λ o y. collect_calls now cs o y)

  -- The constructor.
  unfoldable pub batch : ℕ → ℕ → List BatchCall → World → Ending World (Batch BatchCall)
  unfolding collect_calls then_run
  batch now batch_id fun x = then_run (collect_calls now fun [] x) (λ o y.
      returned
        (record {
          observers = o;
          batch_nodes = order_nodes y.graph o [];
          fun = fun;
          batch_id = batch_id;
          is_closed = false;
        })
        (record y { graph = register_active_batch batch_id o y.graph }))

  -- A call under `BatchExeGuard`.
  unfoldable pub run_call : BatchCall → World → Ending World (Unit {0})
  unfolding with_state react_value
  run_call (sets n v) x = react_value none true tt n v x
  run_call (changes n c) x =
      with_state tt x (react_change w net x.graph.alive fuel true c n x.state)

  unfoldable pub run_calls : List BatchCall → World → Ending World (Unit {0})
  unfolding run_call then_run
  run_calls [] x = returned tt x
  run_calls (c ∷ cs) x = then_run (run_call c x) (λ _ y. run_calls cs y)

  -- `execute`
  unfoldable pub execute_calls : Batch BatchCall → World → Ending World (Unit {0})
  unfolding run_calls then_run
  execute_calls b x =
      then_run (run_calls b.fun x)
        (λ _ y. returned tt (record y { state = change_nodes net y.graph b.batch_nodes y.state }))

  -- The destructor of the batch, whether the execution returned or threw.
  unfoldable pub destroyed : Batch BatchCall → Ending World (Unit {0}) → Ending World (Unit {0})
  unfolding close
  destroyed b (returned _ x) = returned tt (record x { graph = (close b x.graph).1 })
  destroyed b (thrown e x) = thrown e (record x { graph = (close b x.graph).1 })
  destroyed b undefined_behaviour = undefined_behaviour
  destroyed b no_fuel = no_fuel

  -- `batchExecute`
  unfoldable pub batch_execute : ℕ → ℕ → List BatchCall → World → Ending World (Unit {0})
  unfolding batch execute_calls destroyed then_run
  batch_execute now batch_id fun x =
      then_run (batch now batch_id fun x) (λ b y. destroyed b (execute_calls b y))
