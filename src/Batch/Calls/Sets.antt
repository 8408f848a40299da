-- ===== src/Batch/Calls/Sets.antt =====
-- A function of `value` calls, as a function of any calls and as the batch keeps it
-- (include/reaction/factory/reactive_factory.h, include/reaction/graph/batch.h).
use reaction.Prelude.{
  ℕ, ◌≡◌, ◌≢◌, sym, ap, ◌∙◌, inl, inr, Bool, true, false, List, [], ◌∷◌, Bool-cases, Option-cases,
  if_true, if_false,
}
use reaction.Exception.{ReactionException, Result, ok, throw, out_of_fuel}
use reaction.Graph.State.{Graph, NodeSet}
use reaction.Graph.Batches.{register_active_batch, unregister_active_batch}
use reaction.Graph.Collect.{collect_observers}
use reaction.Propagation.{Network, State, update_value, set_value}
use reaction.Assign.{Ending, returned, ended}
use reaction.Batch.{
  Batch, lock_failed, collected_then, collect_values, order_nodes, run_values, change_nodes, close,
}
use reaction.Batch.Calls.{
  all_sets, World, BatchCall, then_run, collected, with_state, collect_call, collect_calls, batch,
  run_call, run_calls, execute_calls, destroyed, batch_execute,
}

abbrev pub world : Graph → State ℕ → World
world g s = record { graph = g; state = s }

module _ (w : ℕ) (net : Network ℕ) (fuel : ℕ) where
  collect_calls-sets :
      (now : ℕ) (calls : List (ℕ × ℕ)) (out out' : NodeSet) (g g' : Graph) (s : State ℕ)
      → collect_values now fuel calls out g ≡ ok out' g'
      → collect_calls w net fuel now (all_sets calls) out (world g s) ≡ returned out' (world g' s)
  unfolding collect_values collect_calls collect_call collected collected_then then_run all_sets
  collect_calls-sets now [] out out' g g' s e = same e
    where
      same : ok out g ≡ ok out' g' → returned out (world g s) ≡ returned out' (world g' s)
      same e = cc
  collect_calls-sets now ((n, v) ∷ calls) out out' g g' s e = elim (Bool-cases (g.alive n)) [
    | inr dead ↦ absurd (thrown_is_not_ok (sym (if_false dead _ _) ∙ e))
    | inl live ↦ elim (Option-cases (collect_observers now fuel n out 1 g)) [
      | inl none_e ↦ absurd (
          no_answer (
            sym (ap (collected_then (collect_values now fuel calls)) none_e)
            ∙ sym (if_true live _ _)
            ∙ e))
      | inr ((out1, g1), some_e) ↦
          ap first (if_true live _ _ ∙ ap (collected x) some_e)
          ∙ collect_calls-sets now calls out1 out' g1 g' s (
              sym (ap (collected_then (collect_values now fuel calls)) some_e)
              ∙ sym (if_true live _ _)
              ∙ e)
    ]
  ]
    where
      x : World
      x = world g s

      first : Ending World NodeSet → Ending World NodeSet
      first r = then_run r (λ o y. collect_calls w net fuel now (all_sets calls) o y)

      thrown_is_not_ok : {f : ReactionException} {h : Graph} → throw f h ≢ ok out' g'
      thrown_is_not_ok z = cc

      no_answer : out_of_fuel ≢ ok out' g'
      no_answer z = cc

  run_calls-sets :
      (calls : List (ℕ × ℕ)) (g : Graph) (s s' : State ℕ)
      → run_values net g calls s ≡ ok tt s'
      → run_calls w net fuel (all_sets calls) (world g s) ≡ returned tt (world g s')
  unfolding run_values run_calls run_call with_state then_run ended set_value all_sets
  run_calls-sets [] g s s' e = same e
    where
      same :
          ◌≡◌ {A = Result (State ℕ) (Unit {0})} (ok tt s) (ok tt s')
          → ◌≡◌ {A = Ending World (Unit {0})} (returned tt (world g s)) (returned tt (world g s'))
      same e = cc
  run_calls-sets ((n, v) ∷ calls) g s s' e = elim (Bool-cases (g.alive n)) [
    | inr dead ↦ absurd (thrown_is_not_ok (sym (ap then_values dead) ∙ e))
    | inl live ↦
        ap
          (λ (r : Ending World (Unit {0})).
            then_run r (λ _ y. run_calls w net fuel (all_sets calls) y))
          (if_true live _ _)
        ∙ run_calls-sets calls g s1 s' (sym (ap then_values live) ∙ e)
  ]
    where
      s1 : State ℕ
      s1 = (update_value net.ne n v s).1

      then_values : Bool → Result (State ℕ) (Unit {0})
      then_values b = elim b [ false ↦ throw lock_failed s | true ↦ run_values net g calls s1 ]

      thrown_is_not_ok :
          {f : ReactionException} {t : State ℕ}
          → ◌≢◌ {A = Result (State ℕ) (Unit {0})} (throw f t) (ok tt s')
      thrown_is_not_ok z = cc

  pub batch_execute-sets :
      (now id : ℕ) (calls : List (ℕ × ℕ)) (out : NodeSet) (g h : Graph) (s s1 : State ℕ)
      → collect_values now fuel calls [] g ≡ ok out h
      → run_values net (register_active_batch id out h) calls s ≡ ok tt s1
      → batch_execute w net fuel now id (all_sets calls) (world g s)
        ≡ returned tt (
            world
              (unregister_active_batch id (register_active_batch id out h))
              (change_nodes net (register_active_batch id out h) (order_nodes h out []) s1))
  unfolding batch_execute batch execute_calls destroyed then_run close
  batch_execute-sets now id calls out g h s s1 collected_eq wrote =
      ap
        (λ (r : Ending World NodeSet).
          then_run (then_run r build)
            (λ b y. destroyed w net fuel b (execute_calls w net fuel b y)))
        (collect_calls-sets now calls [] out g h s collected_eq)
      ∙ ap (λ (r : Ending World (Unit {0})). destroyed w net fuel b (then_run r finish))
          (run_calls-sets calls (register_active_batch id out h) s s1 wrote)
    where
      build : NodeSet → World → Ending World (Batch BatchCall)
      build o y =
          returned
            (record {
              observers = o;
              batch_nodes = order_nodes y.graph o [];
              fun = all_sets calls;
              batch_id = id;
              is_closed = false;
            })
            (record y { graph = register_active_batch id o y.graph })

      b : Batch BatchCall
      b = record {
        observers = out;
        batch_nodes = order_nodes h out [];
        fun = all_sets calls;
        batch_id = id;
        is_closed = false;
      }

      finish : Unit {0} → World → Ending World (Unit {0})
      finish _ y =
          returned tt (record y { state = change_nodes net y.graph (order_nodes h out []) y.state })
