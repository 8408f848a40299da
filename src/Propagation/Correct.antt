-- ===== src/Propagation/Correct.antt =====
-- What `setValue` of a variable brings about.
use reaction.Prelude.{
  ℕ, ◌<◌, ◌≡◌, ◌≢◌, refl, sym, ap, ◌∙◌, ◌⊎◌, inl, inr, true, false, some, nat_beq, nat_beq_iff, mem,
  Bool, Bool-cases, if_false,
}
use reaction.Graph.State.{update}
use reaction.Propagation.{var_node, calc_node, Network, State, update_value, notify, set_value}
use reaction.Propagation.Settle.{IsSensible, IsTracked, Settled, notify-Settles, fun_other}
use reaction.Propagation.Answers.{IsRanked, KeepsVars, notify-Answers}

module _ {V : Type 0} (net : Network V) where
  -- Nothing is out of date: every tracked calculation holds what its function computes.
  abbrev pub IsSettled : State V → Type 0
  IsSettled s = (u : ℕ) → IsTracked net u → s.value u ≡ net.fun u s.value

  -- Writing a variable only excuses its observers.
  pub written-Settled :
      (n : ℕ) (v : V) (s : State V)
      → IsSensible net
      → net.kind n ≡ var_node
      → IsSettled s
      → Settled net
          (λ u. ⊥ ⊎ (true ≡ true) × (mem u (net.observers n) ≡ true))
          (record s { value = update s.value n v })
  unfolding update
  written-Settled n v s sane var h u t = elim (Bool-cases (mem u (net.observers n))) [
    | inl follows ↦ inr (inr (refl, follows))
    | inr away ↦ elim (Bool-cases (nat_beq n u)) [
      | inl same ↦ absurd (apart (sym var ∙ ap (λ y. net.kind y) ((nat_beq_iff n u).0 same) ∙ t.0))
      | inr other ↦ inl (written u other ∙ h u t ∙ sym (fun_other net sane n u s.value v away))
    ]
  ]
    where
      apart : var_node ≢ calc_node
      apart p = cc

      written : (u : ℕ) → nat_beq n u ≡ false → update s.value n v u ≡ s.value u
      written u other = if_false other _ _

  var_write :
      (n : ℕ) (v : V) (s : State V)
      → IsSensible net
      → net.kind n ≡ var_node
      → IsSettled s
      → Settled net
          (λ u. ⊥ ⊎ ((update_value net.ne n v s).0 ≡ true) × (mem u (net.observers n) ≡ true))
          (update_value net.ne n v s).1
  unfolding update_value
  var_write n v s sane var h u t = elim (Bool-cases (net.ne (s.value n) v)) [
    | inl differs ↦ rw differs (written-Settled n v s sane var h u t)
    | inr same ↦ inl (rw same (h u t))
  ]

  -- Notifying the observers of a node settles what they excuse.
  pub notified_lem :
      (rank : ℕ → ℕ) (fuel n : ℕ) (changed : Bool) (s : State V)
      → IsSensible net
      → IsRanked net rank
      → rank n < fuel
      → Settled net (λ u. ⊥ ⊎ (changed ≡ true) × (mem u (net.observers n) ≡ true)) s
      → (s' : State V) × (notify net fuel n changed s ≡ some s') × IsSettled s' × KeepsVars net s s'
  notified_lem rank fuel n changed s sane ranked enough h =
      let (s', eq, keeps) = notify-Answers net rank ranked fuel n changed s enough in
      (
        s',
        eq,
        (λ u t. elim (notify-Settles net sane fuel n changed s s' (λ u. ⊥) eq h u t) [
          | inl agrees ↦ agrees
          | inr z ↦ absurd z
        ]),
        keeps,
      )

  own_value :
      (n : ℕ) (v : V) (s : State V) → IsSensible net → (update_value net.ne n v s).1.value n ≡ v
  unfolding update_value update
  own_value n v s sane = elim (Bool-cases (net.ne (s.value n) v)) [
    | inl differs ↦ rw (differs, (nat_beq_iff n n).1 refl)
    | inr same ↦ rw same (sane.ne_false (s.value n) v same)
  ]

  other_value :
      (n m : ℕ) (v : V) (s : State V) → m ≢ n → (update_value net.ne n v s).1.value m ≡ s.value m
  unfolding update_value update
  other_value n m v s m≢n = elim (Bool-cases (net.ne (s.value n) v)) [
    | inl differs ↦ elim (Bool-cases (nat_beq n m)) [
      | inl same ↦ absurd (m≢n (sym ((nat_beq_iff n m).0 same)))
      | inr other ↦ rw (differs, other)
    ]
    | inr same ↦ rw same
  ]

  -- In a network whose functions read observed nodes only, whose comparison tells different values
  -- apart and whose ranks fall along the edges, with fuel above the rank of the variable, and
  -- where every calculation without a filter agrees with what it reads: outside a batch,
  -- `setValue` of a variable returns; afterwards every calculation without a filter agrees with
  -- what it reads again, the variable holds the new value, and all other variables the old ones.
  pub set_value_lem :
      (rank : ℕ → ℕ) (fuel n : ℕ) (v : V) (s : State V)
      → IsSensible net
      → IsRanked net rank
      → rank n < fuel
      → net.kind n ≡ var_node
      → IsSettled s
      → (s' : State V) × (set_value net fuel false n v s ≡ some s')
        × IsSettled s'
        × (s'.value n ≡ v)
        × ((m : ℕ) → m ≢ n → net.kind m ≡ var_node → s'.value m ≡ s.value m)
  unfolding set_value
  set_value_lem rank fuel n v s sane ranked enough var h =
      let w = update_value net.ne n v s in
      let (s', eq, done, keeps) =
        notified_lem rank fuel n w.0 w.1 sane ranked enough (var_write n v s sane var h) in
      (
        s',
        eq,
        done,
        keeps n var ∙ own_value n v s sane,
        λ m m≢n k. keeps m k ∙ other_value n m v s m≢n,
      )
