-- ===== src/Operators/Tests.antt =====
-- The sum of a variable and twice a calculation.
use reaction.Prelude.{ℕ, ◌+◌, ◌*◌, ◌≡◌, ◌≢◌, refl, some, true, false, [], ◌∷◌, nat_eq, find, mem}
use reaction.Graph.State.{new_graph, dependents}
use reaction.Graph.Batches.{is_node_in_active_batch}
use reaction.Graph.Diamond.{diamond_graph-IsWellFormed}
use reaction.Memory.Tests.{medium}
use reaction.Source.{Store, finished}
use reaction.Source.Tests.{store, diamond_graph-IsSound, tells_apart}
use reaction.Tracking.{gives}
use reaction.Tracking.Reads.{read_nodes}
use reaction.Operators.{OpExpr, operand, unary_op_expr, binary_op_expr, evaluate_expr, expr}
use reaction.Operators.Evaluation.{operands, meaning, expr_lem}

abbrev sum : OpExpr ℕ
sum = binary_op_expr (λ a b. a + b) (operand 0) (unary_op_expr (λ a. 2 * a) (operand 1))

orders_run :
    (read_nodes (evaluate_expr true sum gives) store.value ≡ 1 ∷ 0 ∷ [])
    × (read_nodes (evaluate_expr false sum gives) store.value ≡ 0 ∷ 1 ∷ [])
unfolding evaluate_expr read_nodes
orders_run = (refl, refl)

expr_lem_example :
    (st' : Store ℕ) × (expr medium true 0 3 sum store ≡ finished st')
    × ((u : ℕ) → mem u (dependents st'.graph 3) ≡ mem u (operands sum))
    × (st'.value 3 ≡ some (meaning sum (λ n. n + 3)))
    × ((x u : ℕ) → x ≢ 3 → mem u (dependents st'.graph x) ≡ mem u (dependents store.graph x))
    × ((x : ℕ) → x ≢ 3 → st'.value x ≡ store.value x)
expr_lem_example =
    expr_lem medium true 0 3 sum store (λ n. n + 3) diamond_graph-IsWellFormed
      (unfold new_graph find in refl) diamond_graph-IsSound (unfold new_graph in refl)
      (unfold is_node_in_active_batch new_graph find in refl) tells_apart (λ n m. refl)
      (λ n m. unfold new_graph in refl) (unfold operands mem in refl)
