-- ===== src/Propagation.antt =====
-- How a change of value travels: `ObserverNode::notify` and `valueChanged`
-- (include/reaction/core/observer_node.h), `CalcExprBase::handleChange` and
-- `Expression<VarExpr>::setValue` (include/reaction/expression/expression.h), and the trigger
-- policies (include/reaction/policy/trigger.h). The values are those of one type, the edges are
-- fixed while a change travels, and what the user's functions compute is a parameter.
pub mod Settle
pub mod Answers
pub mod Correct
pub mod Tests
use reaction.Prelude.{
  ℕ, zero, suc, Bool, true, false, not, Option, none, some, List, [], ◌∷◌, if◌then◌else◌, nat_beq,
}
use reaction.Graph.State.{update}

-- The trigger policies; the stored filter function reads the values of its arguments.
pub data Trigger (V : Type 0) : Type 0 where
  always_trig change_trig : Trigger V
  filter_trig : ((ℕ → V) → Bool) → Trigger V

-- A node is a variable, a calculation with a value, or an action, whose type is `Void`.
pub data Kind : Type 0 where
  var_node calc_node action_node : Kind

-- What is fixed: each node's observers, kind, trigger and function of the current values, and
-- the comparison of values.
pub record Network (V : Type 0) : Type 0 where
  pub observers : ℕ → List ℕ
  pub kind : ℕ → Kind
  pub trigger : ℕ → Trigger V
  pub fun : ℕ → (ℕ → V) → V
  pub ne : V → V → Bool

-- What changes: the values, and the flag of each `ChangeTrig`.
pub record State (V : Type 0) : Type 0 where
  pub value : ℕ → V
  pub changed : ℕ → Bool

module _ {V : Type 0} where
  -- `setChanged`, for the nodes that have it.
  unfoldable pub set_changed : Trigger V → ℕ → Bool → State V → State V
  unfolding update
  set_changed always_trig n changed s = s
  set_changed change_trig n changed s = record s { changed = update s.changed n changed }
  set_changed (filter_trig f) n changed s = s

  -- `checkTrig`
  unfoldable pub check_trig : Trigger V → ℕ → State V → Bool
  check_trig always_trig n s = true
  check_trig change_trig n s = s.changed n
  check_trig (filter_trig f) n s = f s.value

  -- `updateValue` of a value that is there and can be compared.
  unfoldable pub update_value : (V → V → Bool) → ℕ → V → State V → Bool × State V
  unfolding update
  update_value ne n v s =
      if ne (s.value n) v then (true, record s { value = update s.value n v }) else (false, s)

module _ {V : Type 0} (net : Network V) where
  -- The result of `evaluate` and `updateValue`: whether the value changed. An action has no value
  -- and always counts as changed.
  unfoldable pub recompute : Kind → ℕ → State V → Bool × State V
  unfolding update_value
  recompute var_node n s = (true, s)
  recompute calc_node n s = update_value net.ne n (net.fun n s.value) s
  recompute action_node n s = (true, s)

  abbrev pub Notify : Type 0
  Notify = ℕ → Bool → State V → Option (State V)

  -- `handleChange<true>`
  unfoldable pub handle_change : Notify → Kind → ℕ → Bool → State V → Option (State V)
  unfolding set_changed check_trig recompute
  handle_change notify k n changed s =
      let s' = set_changed (net.trigger n) n changed s in
      let (change, s'') = recompute k n s' in
      if check_trig (net.trigger n) n s' then notify n change s'' else some s'

  -- `handleChange<false>`
  unfoldable pub changed_no_notify : Kind → ℕ → Bool → State V → State V
  unfolding set_changed check_trig recompute
  changed_no_notify var_node n changed s = s
  changed_no_notify k n changed s =
      let s' = set_changed (net.trigger n) n changed s in
      let (_, s'') = recompute k n s' in if check_trig (net.trigger n) n s' then s'' else s'

  -- `valueChanged`: a variable passes the notification on.
  unfoldable pub value_changed : Notify → Kind → ℕ → Bool → State V → Option (State V)
  unfolding handle_change
  value_changed notify var_node n changed s = notify n changed s
  value_changed notify calc_node n changed s = handle_change notify calc_node n changed s
  value_changed notify action_node n changed s = handle_change notify action_node n changed s

  -- The loop of `notify` over the observers.
  unfoldable pub notify_each : Notify → List ℕ → Bool → State V → Option (State V)
  unfolding value_changed
  notify_each notify [] changed s = some s
  notify_each notify (o ∷ os) changed s = elim (value_changed notify (net.kind o) o changed s) [
    | none ↦ none
    | some s' ↦ notify_each notify os changed s'
  ]

  -- `notify`, on fuel for the depth of the calls.
  unfoldable pub notify : ℕ → Notify
  unfolding notify_each
  notify zero n changed s = none
  notify (suc fuel) n changed s = notify_each (notify fuel) (net.observers n) changed s

  -- `setValue` of a variable; `batch_execute` is the thread's `g_batch_execute`.
  unfoldable pub set_value : ℕ → Bool → ℕ → V → State V → Option (State V)
  unfolding update_value
  set_value fuel batch_execute n v s =
      let (changed, s') = update_value net.ne n v s in
      if batch_execute then some s' else notify fuel n changed s'
