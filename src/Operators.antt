-- ===== src/Operators.antt =====
-- Expressions built with operators (include/reaction/expression/expression_types.h), and `expr`,
-- which makes a node of one (include/reaction/factory/reactive_factory.h). The operators are
-- functions.
pub mod Evaluation
pub mod Tests
use reaction.Prelude.{ℕ, Bool, true, false, List, [], ◌∷◌, ◌++◌}
use reaction.Graph.State.{add_node}
use reaction.Memory.{TypeInfo}
use reaction.Source.{Store, Attempt}
use reaction.Tracking.{Program, gives, reads, set_tracked}

-- `ValueWrapper`, a handle, `UnaryOpExpr` and `BinaryOpExpr`.
pub data OpExpr (V : Type 0) : Type 0 where
  value_wrapper : V → OpExpr V
  operand : ℕ → OpExpr V
  unary_op_expr : (V → V) → OpExpr V → OpExpr V
  binary_op_expr : (V → V → V) → OpExpr V → OpExpr V → OpExpr V

module _ {V : Type 0} where
  -- `evaluate`, followed by `k`. Which argument of `m_op` is computed first is not specified:
  -- `right_first` says it for each call.
  unfoldable pub evaluate_expr : Bool → OpExpr V → (V → Program V) → Program V
  evaluate_expr right_first (value_wrapper v) k = k v
  evaluate_expr right_first (operand n) k = reads n k
  evaluate_expr right_first (unary_op_expr op e) k = evaluate_expr right_first e (λ a. k (op a))
  evaluate_expr true (binary_op_expr op l r) k =
      evaluate_expr true r (λ b. evaluate_expr true l (λ a. k (op a b)))
  evaluate_expr false (binary_op_expr op l r) k =
      evaluate_expr false l (λ a. evaluate_expr false r (λ b. k (op a b)))

  module _ (t : TypeInfo V) where
    -- `ReactImpl::set` without arguments, and `setOpExpr`.
    unfoldable pub set_op_expr : Bool → ℕ → ℕ → OpExpr V → Store V → Attempt V
    unfolding set_tracked evaluate_expr
    set_op_expr right_first now node e st =
        set_tracked t now node (evaluate_expr right_first e gives) st

    -- `expr`
    unfoldable pub expr : Bool → ℕ → ℕ → OpExpr V → Store V → Attempt V
    unfolding set_op_expr add_node
    expr right_first now node e st =
        set_op_expr right_first now node e (record st { graph = add_node node st.graph })
