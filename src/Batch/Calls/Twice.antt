-- ===== src/Batch/Calls/Twice.antt =====
-- An operator that assigns, in the function of a batch (include/reaction/graph/batch.h,
-- include/reaction/core/react.h).
use reaction.Prelude.{ℕ, ◌<◌, ◌≡◌, ◌≢◌, ap, ◌∙◌, Bool, true, false, Option, [], ◌∷◌, if_true}
use reaction.Graph.State.{update, update_here, update_away}
use reaction.Graph.Batches.{register_active_batch}
use reaction.Graph.Batches.Registry.{register_active_batch-alive}
use reaction.Memory.Impl.{impl_atomic_operation, compound_assign, step_value}
use reaction.Propagation.{var_node, Network, State}
use reaction.Propagation.Settle.{IsSensible}
use reaction.Propagation.Answers.{IsRanked}
use reaction.Propagation.Correct.{IsSettled}
use reaction.Assign.{
  Change, assigns, steps, Ending, returned, ended, store, atomic_operation, react_assign,
  react_step, react_change, has_meaning, new_value, answer_of,
}
use reaction.Assign.Correct.{react_change_lem}
use reaction.Batch.{Batch, order_nodes, change_nodes, close}
use reaction.Batch.Calls.{
  World, BatchCall, changes, then_run, with_state, collect_call, collect_calls, batch, run_call,
  run_calls, execute_calls, destroyed, batch_execute,
}

-- While a batch is executed, an operator writes the value and notifies no one.
change_in_batch :
    (w : ℕ) (net : Network ℕ) (alive : ℕ → Bool) (fuel : ℕ) (c : Change) (n : ℕ) (s : State ℕ)
    → alive n ≡ true
    → has_meaning w c ≡ true
    → react_change w net alive fuel true c n s
      ≡ returned
          (answer_of c (s.value n))
          (record s { value = update s.value n (new_value w c (s.value n)) })
unfolding react_change react_assign react_step has_meaning new_value answer_of atomic_operation
    impl_atomic_operation compound_assign step_value store ended
change_in_batch w net alive fuel (assigns op rhs) n s live meant =
    if_true live _ _ ∙ if_true meant _ _
change_in_batch w net alive fuel (steps step) n s live meant = if_true live _ _

-- In a network of unsigned values of `w` bits that is sensible, whose ranks fall along the edges
-- and which is settled, with fuel above the rank of a variable that is alive: `batchExecute` of a
-- function that makes one compound assignment with a meaning, or one increment or decrement, of the
-- variable returns. The operator has then been applied twice: once in the constructor, after which
-- the network was settled, and once in the execution, which changes no other node.
pub applied_twice_lem :
    (w : ℕ) (net : Network ℕ) (rank : ℕ → ℕ) (fuel now id : ℕ) (c : Change) (n : ℕ) (x : World)
    → IsSensible net
    → IsRanked net rank
    → rank n < fuel
    → net.kind n ≡ var_node
    → x.graph.alive n ≡ true
    → has_meaning w c ≡ true
    → IsSettled net x.state
    → (y : World) × (s : State ℕ) × (batch_execute w net fuel now id (changes n c ∷ []) x
        ≡ returned tt y)
      × IsSettled net s
      × (s.value n ≡ new_value w c (x.state.value n))
      × (y.state.value n ≡ new_value w c (new_value w c (x.state.value n)))
      × ((m : ℕ) → m ≢ n → y.state.value m ≡ s.value m)
unfolding batch_execute batch collect_calls collect_call execute_calls run_calls run_call destroyed
    then_run with_state order_nodes change_nodes
applied_twice_lem w net rank fuel now id c n x sane ranked enough var live meant settled =
    let (s, eq, done, has, _) =
      react_change_lem w net x.graph.alive rank fuel c n x.state sane ranked enough var live meant
        settled in
    let g = register_active_batch id [] x.graph in
    let b : Batch BatchCall = record {
      observers = [];
      batch_nodes = [];
      fun = changes n c ∷ [];
      batch_id = id;
      is_closed = false;
    } in
    let v = new_value w c (s.value n) in
    let y : World = record { graph = g; state = s } in
    let ran : Ending (State ℕ) (Option ℕ) → Ending World (Unit {0}) = λ r.
      then_run (then_run (with_state tt y r) (λ _ z. run_calls w net fuel [] z))
        (λ _ z. returned tt (record z { state = change_nodes net z.graph [] z.state })) in
    (
      record { graph = (close b g).1; state = record s { value = update s.value n v } },
      s,
      ap (λ r. then_run (built r) go) eq
          ∙ ap (λ r. destroyed w net fuel b (ran r))
              (change_in_batch w net g.alive fuel c n s
                (register_active_batch-alive id [] x.graph n ∙ live) meant),
      done,
      has,
      update_here s.value n v ∙ ap (new_value w c) has,
      λ m away. update_away s.value n m v away,
    )
  where
    go : Batch BatchCall → World → Ending World (Unit {0})
    go b y = destroyed w net fuel b (execute_calls w net fuel b y)

    built : Ending (State ℕ) (Option ℕ) → Ending World (Batch BatchCall)
    built r =
        then_run (then_run (with_state [] x r) (λ o y. collect_calls w net fuel now [] o y)) (λ o y.
          returned
            (record {
              observers = o;
              batch_nodes = order_nodes y.graph o [];
              fun = changes n c ∷ [];
              batch_id = id;
              is_closed = false;
            })
            (record y { graph = register_active_batch id o y.graph }))
