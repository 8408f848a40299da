-- ===== src/Assign/Correct.antt =====
-- What the compound assignments and the increments of a handle bring about
-- (include/reaction/core/react.h, include/reaction/expression/atomic_operations.h).
use reaction.Prelude.{
  ℕ, ◌<◌, ◌≡◌, ◌≢◌, sym, ap, ◌∙◌, inl, inr, Bool, true, false, Option, none, some, nat_beq,
  nat_beq_iff, Bool-cases, if_true, if_false,
}
use mathlib.Core.Path.{subst}
use mathlib.Core.Bool.{true≢false}
use reaction.Graph.State.{update, update_here, update_away}
use reaction.Memory.Impl.{outcome_of, differs, impl_atomic_operation, compound_assign, step_value}
use reaction.Propagation.{var_node, Network, State, notify}
use reaction.Propagation.Settle.{IsSensible}
use reaction.Propagation.Answers.{IsRanked}
use reaction.Propagation.Correct.{IsSettled, written-Settled, notified_lem}
use reaction.Assign.{
  Change, assigns, steps, returned, ended, store, atomic_operation, react_assign, react_step,
  react_change, has_meaning, new_value, answer_of, apply_assign, apply_step, old_value,
}

module _ {V : Type 0} (net : Network V) (rank : ℕ → ℕ) (fuel n : ℕ) (s : State V)
    (sane : IsSensible net) (ranked : IsRanked net rank) (enough : rank n < fuel)
    (var : net.kind n ≡ var_node) (settled : IsSettled net s) where
  -- The network is settled, the node has the value, and the other variables are as they were.
  abbrev Holds : V → State V → Type 0
  Holds v s' =
      IsSettled net s'
      × (s'.value n ≡ v)
      × ((m : ℕ) → m ≢ n → net.kind m ≡ var_node → s'.value m ≡ s.value m)

  told :
      (v : V)
      → (s' : State V) × (notify net fuel n true (record s { value = update s.value n v })
          ≡ some s')
        × Holds v s'
  told v =
      let (s', eq, done, keeps) =
        notified_lem net rank fuel n true (record s { value = update s.value n v }) sane ranked
          enough (written-Settled net n v s sane var settled) in
      (
        s',
        eq,
        (
          done,
          keeps n var ∙ update_here s.value n v,
          λ m away k. keeps m k ∙ update_away s.value n m v away,
        ),
      )

  unchanged : (v : V) → s.value n ≡ v → (m : ℕ) → update s.value n v m ≡ s.value m
  unfolding update
  unchanged v same m = elim (Bool-cases (nat_beq n m)) [
    | inl here ↦ if_true here _ _ ∙ sym same ∙ ap s.value ((nat_beq_iff n m).0 here)
    | inr away ↦ if_false away _ _
  ]

  untold : (v : V) → s.value n ≡ v → Holds v (record s { value = update s.value n v })
  untold v same = (
    (λ u t.
        subst (λ (f : ℕ → V). f u ≡ net.fun u f) (λ i m. sym (unchanged v same m) i) (settled u t)),
    update_here s.value n v,
    λ m away k. update_away s.value n m v away,
  )

  -- With an outcome that tells a changed value from the old one.
  atomic_operation_lem :
      (always : Bool) (op : V → V) (f : V → Option Bool)
      → ((x : V) → outcome_of (f x) always ≡ false → x ≡ op x)
      → (s' : State V) × (atomic_operation net fuel false always (λ x. (f x, op x)) n s ≡ some s')
        × Holds (op (s.value n)) s'
  unfolding atomic_operation impl_atomic_operation store
  atomic_operation_lem always op f honest = elim (Bool-cases (outcome_of (f (s.value n)) always)) [
    | inl yes_told ↦
        let (s', eq, holds) = told (op (s.value n)) in (s', if_true yes_told _ _ ∙ eq, holds)
    | inr no_told ↦ (_, if_false no_told _ _, untold (op (s.value n)) (honest (s.value n) no_told))
  ]

-- In a network of unsigned values of `w` bits that is sensible, whose ranks fall along the edges
-- and which is settled, with fuel above the rank of the variable, which is alive: outside a batch,
-- each compound assignment that the language gives a meaning, and each increment and decrement,
-- returns, the postfix forms with the old value; afterwards the network is settled, the variable
-- holds the result of the operator, and all other variables the old values.
pub react_change_lem :
    (w : ℕ) (net : Network ℕ) (alive : ℕ → Bool) (rank : ℕ → ℕ) (fuel : ℕ) (c : Change) (n : ℕ)
    (s : State ℕ)
    → IsSensible net
    → IsRanked net rank
    → rank n < fuel
    → net.kind n ≡ var_node
    → alive n ≡ true
    → has_meaning w c ≡ true
    → IsSettled net s
    → (s' : State ℕ) × (react_change w net alive fuel false c n s
        ≡ returned (answer_of c (s.value n)) s')
      × IsSettled net s'
      × (s'.value n ≡ new_value w c (s.value n))
      × ((m : ℕ) → m ≢ n → net.kind m ≡ var_node → s'.value m ≡ s.value m)
unfolding react_change react_assign react_step has_meaning new_value answer_of compound_assign
    step_value ended differs outcome_of
react_change_lem w net alive rank fuel (assigns op rhs) n s sane ranked enough var live meant
      settled =
    let (s', eq, (done, has, rest)) =
      atomic_operation_lem net rank fuel n s sane ranked enough var settled false
        (λ v. apply_assign w op v rhs) (λ v. some (net.ne v (apply_assign w op v rhs)))
        (λ x same. sane.ne_false x _ same) in
    (s', if_true live _ _ ∙ if_true meant _ _ ∙ ap (ended none) eq, done, has, rest)
react_change_lem w net alive rank fuel (steps step) n s sane ranked enough var live meant settled =
    let (s', eq, (done, has, rest)) =
      atomic_operation_lem net rank fuel n s sane ranked enough var settled true (apply_step w step)
        (λ v. some true) (λ x same. absurd (true≢false same)) in
    (s', if_true live _ _ ∙ ap (ended (old_value step (s.value n))) eq, done, has, rest)
