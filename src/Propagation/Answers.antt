-- ===== src/Propagation/Answers.antt =====
-- The depth of the calls of `notify`, and what they leave alone.
use reaction.Prelude.{
  ℕ, zero, suc, ◌<◌, ◌≡◌, ◌≢◌, refl, sym, ap, ◌∙◌, inl, inr, Bool, true, false, some, List, [], ◌∷◌,
  nat_beq, nat_beq_iff, mem, arith, Bool-cases, ◌||◌,
}
use reaction.Graph.State.{update}
use reaction.Propagation.{
  Trigger, always_trig, change_trig, filter_trig, Kind, var_node, calc_node, action_node, Network,
  State, set_changed, check_trig, update_value, recompute, Notify, handle_change, value_changed,
  notify_each, notify,
}

-- Ranks that fall along the edges.
pub record IsRanked {V : Type 0} (net : Network V) (rank : ℕ → ℕ) : Type 0 where
  pub falls : (n o : ℕ) → mem o (net.observers n) ≡ true → rank o < rank n

module _ {V : Type 0} (net : Network V) where
  -- The variables keep their values between two states.
  abbrev pub KeepsVars : State V → State V → Type 0
  KeepsVars s s' = (u : ℕ) → net.kind u ≡ var_node → s'.value u ≡ s.value u

  pub flag_keeps :
      (t : Trigger V) (n : ℕ) (c : Bool) (s : State V) → KeepsVars s (set_changed t n c s)
  unfolding set_changed
  flag_keeps always_trig n c s u k = refl
  flag_keeps change_trig n c s u k = refl
  flag_keeps (filter_trig f) n c s u k = refl

  pub update_keeps :
      (o : ℕ) (x : V) (s : State V)
      → net.kind o ≡ calc_node
      → KeepsVars s (update_value net.ne o x s).1
  unfolding update_value update
  update_keeps o x s calc u k = elim (Bool-cases (net.ne (s.value o) x)) [
    | inl differs ↦ elim (Bool-cases (nat_beq o u)) [
      | inl same ↦ absurd (apart (sym calc ∙ ap (λ y. net.kind y) ((nat_beq_iff o u).0 same) ∙ k))
      | inr other ↦ rw (differs, other)
    ]
    | inr same ↦ rw same
  ]
    where
      apart : calc_node ≢ var_node
      apart p = cc

  module _ (rank : ℕ → ℕ) where
    -- A call answers, and keeps the variables, for every node below the bound.
    abbrev pub Answers : Notify net → ℕ → Type 0
    Answers rec bound =
        (n : ℕ) (c : Bool) (s : State V)
        → rank n < bound
        → (s' : State V) × (rec n c s ≡ some s') × KeepsVars s s'

    handle-Answers :
        (rec : Notify net) (bound : ℕ) (k : Kind) (o : ℕ) (c : Bool) (s : State V)
        → Answers rec bound
        → rank o < bound
        → KeepsVars
            (set_changed (net.trigger o) o c s)
            (recompute net k o (set_changed (net.trigger o) o c s)).1
        → (s' : State V) × (handle_change net rec k o c s ≡ some s') × KeepsVars s s'
    unfolding handle_change
    handle-Answers rec bound k o c s a h keeps =
        let s1 = set_changed (net.trigger o) o c s in
        let (s2, eq, keeps2) = a o (recompute net k o s1).0 (recompute net k o s1).1 h in
        elim (Bool-cases (check_trig (net.trigger o) o s1)) [
          | inl passes ↦ (
            s2,
            rw passes eq,
            λ u v. keeps2 u v ∙ keeps u v ∙ flag_keeps (net.trigger o) o c s u v,
          )
          | inr stays ↦ (s1, rw stays, flag_keeps (net.trigger o) o c s)
        ]

    value_changed-Answers :
        (rec : Notify net) (bound : ℕ) (k : Kind) (o : ℕ) (c : Bool) (s : State V)
        → Answers rec bound
        → rank o < bound
        → net.kind o ≡ k
        → (s' : State V) × (value_changed net rec k o c s ≡ some s') × KeepsVars s s'
    unfolding value_changed recompute
    value_changed-Answers rec bound var_node o c s a h e = a o c s h
    value_changed-Answers rec bound calc_node o c s a h e =
        let s1 = set_changed (net.trigger o) o c s in
        handle-Answers rec bound calc_node o c s a h (update_keeps o (net.fun o s1.value) s1 e)
    value_changed-Answers rec bound action_node o c s a h e =
        handle-Answers rec bound action_node o c s a h λ u v. refl

    each-Answers :
        (rec : Notify net) (bound : ℕ) (os : List ℕ) (c : Bool) (s : State V)
        → Answers rec bound
        → ((o : ℕ) → mem o os ≡ true → rank o < bound)
        → (s' : State V) × (notify_each net rec os c s ≡ some s') × KeepsVars s s'
    unfolding notify_each mem
    each-Answers rec bound [] c s a h = (s, refl, λ u v. refl)
    each-Answers rec bound (o ∷ os) c s a h =
        let (s1, eq, keeps) =
          value_changed-Answers rec bound (net.kind o) o c s a (h o (first o os)) refl in
        let (s2, eq2, keeps2) = each-Answers rec bound os c s1 a (λ u m. h u (later u o os m)) in
        (s2, rw (eq, notify_each) eq2, λ u v. keeps2 u v ∙ keeps u v)
      where
        first : (o : ℕ) (os : List ℕ) → (nat_beq o o || mem o os) ≡ true
        first o os = rw ((nat_beq_iff o o).1 refl)

        or_true : (b : Bool) → (b || true) ≡ true
        or_true true = refl
        or_true false = refl

        later : (u o : ℕ) (os : List ℕ) → mem u os ≡ true → (nat_beq u o || mem u os) ≡ true
        later u o os m = rw (m, or_true (nat_beq u o))

    pub notify-Answers : IsRanked net rank → (fuel : ℕ) → Answers (notify net fuel) fuel
    unfolding notify
    notify-Answers ranked zero n c s h = absurd (none_below h)
      where
        none_below : {a : ℕ} → a < 0 → ⊥
        none_below h = omega arith
    notify-Answers ranked (suc fuel) n c s h =
        each-Answers (notify net fuel) fuel (net.observers n) c s (notify-Answers ranked fuel)
          λ o m. lower (ranked.falls n o m) h
      where
        lower : {a b m : ℕ} → a < b → b < suc m → a < m
        lower p q = omega arith
