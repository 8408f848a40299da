-- ===== src/Operators/Evaluation.antt =====
-- What a node made of an operator expression depends on, and its value
-- (include/reaction/expression/expression_types.h).
use reaction.Prelude.{
  ℕ, ◌≡◌, ◌≢◌, refl, sym, ap, ◌∙◌, inl, inr, Bool, true, false, ◌||◌, Option, none, some, List, [],
  ◌∷◌, ◌++◌, nat_beq, nat_beq_iff, nat_eq, mem, arith, Bool-cases, if_true, if_false,
}
use mathlib.Core.Path.{subst}
use mathlib.Core.Bool.{true≢false}
use reaction.Prelude.Walks.{Reach, here, via}
use reaction.Graph.Edges.{Edge}
use reaction.Graph.State.{contains, dependents, add_node}
use reaction.Graph.Invariant.{IsWellFormed, add_node-IsWellFormed, add_node-SameEdges}
use reaction.Graph.Batches.{is_node_in_active_batch}
use reaction.Graph.Edit.Public.{IsSound, add_node-IsSound}
use reaction.Memory.{TypeInfo}
use reaction.Memory.Impl.{differs}
use reaction.Source.{Thrown, Evaluation, returned, raised, Store, finished}
use reaction.Source.Ends.{IsReason}
use reaction.Factory.Calc.{with_node}
use reaction.Tracking.{Program, gives, reads, untracked}
use reaction.Tracking.Reads.{read_nodes, set_tracked-Ends}
use reaction.Operators.{
  OpExpr, value_wrapper, operand, unary_op_expr, binary_op_expr, evaluate_expr, set_op_expr, expr,
}

-- The nodes in the expression.
unfoldable pub operands : {V : Type 0} → OpExpr V → List ℕ
operands (value_wrapper v) = []
operands (operand n) = n ∷ []
operands (unary_op_expr op e) = operands e
operands (binary_op_expr op l r) = operands l ++ operands r

-- What the expression stands for.
unfoldable pub meaning : {V : Type 0} → OpExpr V → (ℕ → V) → V
meaning (value_wrapper v) values = v
meaning (operand n) values = values n
meaning (unary_op_expr op e) values = op (meaning e values)
meaning (binary_op_expr op l r) values = op (meaning l values) (meaning r values)

mem-append : (x : ℕ) (s t : List ℕ) → mem x (s ++ t) ≡ (mem x s || mem x t)
unfolding mem
mem-append x [] t = ground arith
mem-append x (y ∷ s) t = ground (arith, mem-append x s t)

unfoldable has_returned : {V : Type 0} → Evaluation V → Bool
has_returned (returned v) = true
has_returned (raised r) = false

unfoldable result_of : {V : Type 0} → Evaluation V → Option V
result_of (returned v) = some v
result_of (raised r) = none

-- Every node in the expression has this value.
abbrev pub HasValues : {V : Type 0} → (ℕ → Option V) → (ℕ → V) → OpExpr V → Type 0
HasValues stored values e = (n : ℕ) → mem n (operands e) ≡ true → stored n ≡ some (values n)

module _ {V : Type 0} (stored : ℕ → Option V) (values : ℕ → V) where
  module _ (op : V → V → V) (l r : OpExpr V)
      (there : HasValues stored values (binary_op_expr op l r)) where
    in_left : HasValues stored values l
    unfolding operands
    in_left n m = there n (ground (arith, m, mem-append n (operands l) (operands r)))

    in_right : HasValues stored values r
    unfolding operands
    in_right n m = there n (ground (arith, m, mem-append n (operands l) (operands r)))

  value_here : (n : ℕ) → HasValues stored values (operand n) → stored n ≡ some (values n)
  unfolding operands mem
  value_here n there = there n (ground (arith, nat_beq_iff n n))

  evaluate_value :
      (o : Bool) (e : OpExpr V) (k : V → Program V)
      → HasValues stored values e
      → untracked (evaluate_expr o e k) stored ≡ untracked (k (meaning e values)) stored
  unfolding evaluate_expr meaning untracked operands
  evaluate_value o (value_wrapper v) k there = refl
  evaluate_value o (operand n) k there = rw (untracked, value_here n there)
  evaluate_value o (unary_op_expr op e) k there = evaluate_value o e (λ a. k (op a)) there
  evaluate_value true (binary_op_expr op l r) k there =
      evaluate_value true r (λ b. evaluate_expr true l (λ a. k (op a b))) (in_right op l r there)
      ∙ evaluate_value true l (λ a. k (op a (meaning r values))) (in_left op l r there)
  evaluate_value false (binary_op_expr op l r) k there =
      evaluate_value false l (λ a. evaluate_expr false r (λ b. k (op a b))) (in_left op l r there)
      ∙ evaluate_value false r (λ b. k (op (meaning l values) b)) (in_right op l r there)

  evaluate_reads :
      (o : Bool) (e : OpExpr V) (k : V → Program V) (u : ℕ)
      → HasValues stored values e
      → mem u (read_nodes (evaluate_expr o e k) stored)
        ≡ (mem u (operands e) || mem u (read_nodes (k (meaning e values)) stored))
  unfolding evaluate_expr meaning operands mem read_nodes
  evaluate_reads o (value_wrapper v) k u there = ground arith
  evaluate_reads o (operand n) k u there = ap (mem u) listed ∙ ground arith
    where
      listed : read_nodes (reads n k) stored ≡ (n ∷ read_nodes (k (values n)) stored)
      listed = rw (read_nodes, value_here n there)
  evaluate_reads o (unary_op_expr op e) k u there = evaluate_reads o e (λ a. k (op a)) u there
  evaluate_reads true (binary_op_expr op l r) k u there = ground (
    arith,
    evaluate_reads true r (λ b. evaluate_expr true l (λ a. k (op a b))) u (in_right op l r there),
    evaluate_reads true l (λ a. k (op a (meaning r values))) u (in_left op l r there),
    mem-append u (operands l) (operands r),
  )
  evaluate_reads false (binary_op_expr op l r) k u there = ground (
    arith,
    evaluate_reads false l (λ a. evaluate_expr false r (λ b. k (op a b))) u (in_left op l r there),
    evaluate_reads false r (λ b. k (op (meaning l values) b)) u (in_right op l r there),
    mem-append u (operands l) (operands r),
  )

module _ {V : Type 0} (t : TypeInfo V) (right_first : Bool) (now node : ℕ) (e : OpExpr V)
    (st : Store V) (values : ℕ → V) (w : IsWellFormed st.graph)
    (new : contains st.graph node ≡ false) where
  -- The function that `expr` sets.
  abbrev program : Program V
  program = evaluate_expr right_first e gives

  reads_operands :
      HasValues st.value values e
      → (u : ℕ) → mem u (read_nodes program st.value) ≡ mem u (operands e)
  unfolding read_nodes mem
  reads_operands there u =
      evaluate_reads st.value values right_first e gives u there ∙ nothing_more (mem u (operands e))
    where
      nothing_more : (b : Bool) → (b || false) ≡ b
      nothing_more b = ground arith

  gives_meaning :
      HasValues st.value values e → untracked program st.value ≡ returned (meaning e values)
  unfolding untracked
  gives_meaning there = evaluate_value st.value values right_first e gives there

  -- No node leads to a new one.
  not_leading :
      (d n : ℕ)
      → Reach (Edge (add_node node st.graph)) d n
      → contains st.graph n ≡ false
      → d ≢ n
      → ⊥
  not_leading d n here unknown other = other refl
  not_leading d n (via {b = b} edge r) unknown other = elim (Bool-cases (nat_beq b n)) [
    | inl same ↦ true≢false (
        sym (w.known d b (sym ((add_node-SameEdges node st.graph new).deps d b) ∙ edge.0))
        ∙ subst (λ x. contains st.graph x ≡ false) (sym ((nat_beq_iff b n).0 same)) unknown)
    | inr different ↦
        not_leading b n r unknown (λ same. true≢false (sym ((nat_beq_iff b n).1 same) ∙ different))
  ]

  -- There is nothing to throw for.
  no_reason :
      HasValues st.value values e
      → ((n : ℕ) → mem n (operands e) ≡ true → st.graph.alive n ≡ true)
      → mem node (operands e) ≡ false
      → (r : Thrown)
      → IsReason node (with_node node st) (read_nodes program st.value) (untracked program) r
      → ⊥
  unfolding add_node has_returned
  no_reason there living apart r why = elim why [
    | inl (d, m, gone) ↦ true≢false (sym (living d (sym (reads_operands there d) ∙ m)) ∙ gone)
    | inr (inl (d, m, leads)) ↦ not_leading d node leads new (λ same. true≢false (
        sym (sym (reads_operands there d) ∙ m)
        ∙ subst (λ x. mem x (operands e) ≡ false) (sym same) apart))
    | inr (inr threw) ↦ true≢false (ap has_returned (sym (gives_meaning there) ∙ threw))
  ]

  -- `expr` of a new node that is alive, is not in the expression and in no active batch, on a
  -- well-formed graph whose cached answers are right, for an expression whose nodes are alive and
  -- have values, a comparison that tells different values apart, and in either order of evaluation,
  -- returns: the node depends on exactly the nodes in the expression, its value is what the
  -- expression stands for, and the dependencies and the values of all other nodes are as before.
  pub expr_lem :
      IsSound st.graph
      → st.graph.alive node ≡ true
      → is_node_in_active_batch st.graph node ≡ false
      → ((a b : V) → differs t.ne a b ≡ false → a ≡ b)
      → HasValues st.value values e
      → ((n : ℕ) → mem n (operands e) ≡ true → st.graph.alive n ≡ true)
      → mem node (operands e) ≡ false
      → (st' : Store V) × (expr t right_first now node e st ≡ finished st')
        × ((u : ℕ) → mem u (dependents st'.graph node) ≡ mem u (operands e))
        × (st'.value node ≡ some (meaning e values))
        × ((x u : ℕ) → x ≢ node → mem u (dependents st'.graph x) ≡ mem u (dependents st.graph x))
        × ((x : ℕ) → x ≢ node → st'.value x ≡ st.value x)
  unfolding expr set_op_expr is_node_in_active_batch add_node has_returned result_of
  expr_lem sound live free tells there living apart =
      elim (set_tracked-Ends t now node (with_node node st)
        (add_node-IsWellFormed node st.graph new w live)
        (add_node-IsSound node st.graph new sound node) live program tells free) [
          | inl (st', q, r) ↦ (
            st',
            q,
            λ u.
                r.edges.deps node u
                ∙ if_true ((nat_beq_iff node node).1 refl) _ _
                ∙ reads_operands there u,
            r.value_here ∙ ap result_of (sym r.evaluated ∙ gives_meaning there),
            λ x u other.
                r.edges.deps x u
                ∙ if_false (apart_of x other) _ _
                ∙ (add_node-SameEdges node st.graph new).deps x u,
            r.values,
          )
          | inr (inl (r, st', q, std, why, u)) ↦ absurd (no_reason there living apart r why)
          | inr (inr (st', q, h)) ↦
              absurd (true≢false (ap has_returned (sym (gives_meaning there) ∙ h.evaluated)))
        ]
    where
      apart_of : (x : ℕ) → x ≢ node → nat_beq node x ≡ false
      apart_of x other = elim (Bool-cases (nat_beq node x)) [
        | inl same ↦ absurd (other (sym ((nat_beq_iff node x).0 same)))
        | inr different ↦ different
      ]
