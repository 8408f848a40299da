-- ===== src/Propagation/Settle.antt =====
-- After a change has travelled, every calculation agrees with the values that it reads.
use reaction.Prelude.{
  ℕ, zero, suc, ◌≡◌, ◌≢◌, refl, sym, ap, ◌∙◌, ◌⊎◌, inl, inr, Bool, true, false, none, some, List,
  [], ◌∷◌, nat_beq, nat_beq_iff, mem, arith, Bool-cases, Option-cases, get_or,
}
use mathlib.Core.Path.{subst}
use mathlib.Core.Bool.{true≢false}
use reaction.Graph.State.{update}
use reaction.Propagation.{
  Trigger, always_trig, change_trig, filter_trig, Kind, var_node, calc_node, action_node, Network,
  State, set_changed, check_trig, update_value, recompute, Notify, handle_change, value_changed,
  notify_each, notify,
}

module _ {V : Type 0} (net : Network V) where
  -- The function of a node reads nodes that it observes only, no node observes itself, and the
  -- comparison tells different values apart.
  pub record IsSensible : Type 0 where
    pub reads :
        (n : ℕ) (v w : ℕ → V)
        → ((d : ℕ) → mem n (net.observers d) ≡ true → v d ≡ w d)
        → net.fun n v ≡ net.fun n w
    pub no_loop : (n : ℕ) → mem n (net.observers n) ≡ false
    pub ne_false : (a b : V) → net.ne a b ≡ false → a ≡ b

  -- The calculations that follow every change: those with no filter.
  abbrev pub IsTracked : ℕ → Type 0
  IsTracked n =
      (net.kind n ≡ calc_node) × ((net.trigger n ≡ always_trig) ⊎ (net.trigger n ≡ change_trig))

  -- Each tracked calculation agrees with what it reads, or is excused by `P`.
  abbrev pub SettledAt : (ℕ → Type 0) → (ℕ → V) → Type 0
  SettledAt P v = (u : ℕ) → IsTracked u → (v u ≡ net.fun u v) ⊎ P u

  abbrev pub Settled : (ℕ → Type 0) → State V → Type 0
  Settled P s = SettledAt P s.value

  pub Settled_mono :
      {P Q : ℕ → Type 0} (v : ℕ → V)
      → ((u : ℕ) → IsTracked u → P u → Q u)
      → SettledAt P v
      → SettledAt Q v
  Settled_mono v f h u t = elim (h u t) [ inl agrees ↦ inl agrees | inr p ↦ inr (f u t p) ]

  module _ (sane : IsSensible) where
    -- The promise of a call of `notify`: it settles the observers that it is called for.
    abbrev pub Settles : Notify net → Type (0 + 1)
    Settles rec =
        (n : ℕ) (changed : Bool) (s s' : State V) (X : ℕ → Type 0)
        → rec n changed s ≡ some s'
        → Settled (λ u. X u ⊎ (changed ≡ true) × (mem u (net.observers n) ≡ true)) s
        → Settled X s'

    var_is_no_calc : var_node ≢ calc_node
    var_is_no_calc p = cc

    action_is_no_calc : action_node ≢ calc_node
    action_is_no_calc p = cc

    same_state : {x y : State V} → some x ≡ some y → x ≡ y
    same_state {x} e = ap (λ o. get_or o x) e

    nat_beq_self : (n : ℕ) → nat_beq n n ≡ true
    nat_beq_self n = (nat_beq_iff n n).1 refl

    -- Writing the flag changes no value.
    pub flag_value :
        (t : Trigger V) (n : ℕ) (c : Bool) (s : State V) → (set_changed t n c s).value ≡ s.value
    unfolding set_changed
    flag_value always_trig n c s = refl
    flag_value change_trig n c s = refl
    flag_value (filter_trig f) n c s = refl

    pub not-IsTracked_kind : {n : ℕ} {k : Kind} → net.kind n ≡ k → k ≢ calc_node → ¬ IsTracked n
    not-IsTracked_kind e ne t = ne (sym e ∙ t.0)

    -- Writing a node that does not observe itself changes what its own function reads in nothing.
    fun_self : (o : ℕ) (v : ℕ → V) (x : V) → net.fun o (update v o x) ≡ net.fun o v
    fun_self o v x = sane.reads o (update v o x) v λ d h.
        unfold update in
        elim (Bool-cases (nat_beq o d)) [
          | inl same ↦ absurd (
              apart (subst (λ y. mem o (net.observers y) ≡ true) (sym ((nat_beq_iff o d).0 same)) h)
                (sane.no_loop o))
          | inr other ↦ rw other
        ]
      where
        apart : {b : Bool} → b ≡ true → b ≡ false → ⊥
        apart p q = cc

    pub fun_other :
        (o u : ℕ) (v : ℕ → V) (x : V)
        → mem u (net.observers o) ≡ false
        → net.fun u (update v o x) ≡ net.fun u v
    fun_other o u v x away = sane.reads u (update v o x) v λ d h.
        unfold update in
        elim (Bool-cases (nat_beq o d)) [
          | inl same ↦ absurd (
              apart (subst (λ y. mem u (net.observers y) ≡ true) (sym ((nat_beq_iff o d).0 same)) h)
                away)
          | inr other ↦ rw other
        ]
      where
        apart : {b : Bool} → b ≡ true → b ≡ false → ⊥
        apart p q = cc

    -- After a write of its own result to node `o`, only its observers can be unsettled.
    pub write_settles :
        (o : ℕ) (v : ℕ → V) (Y : ℕ → Type 0)
        → SettledAt (λ u. Y u ⊎ (u ≡ o)) v
        → SettledAt (λ u. Y u ⊎ (mem u (net.observers o) ≡ true)) (update v o (net.fun o v))
    write_settles o v Y h u t = elim (Bool-cases (nat_beq o u)) [
      | inl same ↦
          let o≡u : o ≡ u = (nat_beq_iff o u).0 same in
          inl (
            subst (λ y. update v o (net.fun o v) y ≡ net.fun y (update v o (net.fun o v))) o≡u
              (update_at o v (net.fun o v) ∙ sym (fun_self o v (net.fun o v))))
      | inr other ↦ elim (Bool-cases (mem u (net.observers o))) [
        | inl follows ↦ inr (inr follows)
        | inr away ↦ elim (h u t) [
          | inl agrees ↦
              inl (unfold update in rw other (agrees ∙ sym (fun_other o u v (net.fun o v) away)))
          | inr (inl excused) ↦ inr (inl excused)
          | inr (inr same) ↦ absurd (differ same other)
        ]
      ]
    ]
      where
        update_at : (n : ℕ) (w : ℕ → V) (x : V) → update w n x n ≡ x
        update_at n w x = unfold update in ground (arith, nat_beq_iff n n)

        differ : {a b : ℕ} → a ≡ b → nat_beq b a ≡ false → ⊥
        differ p q = ground (arith)

    -- `updateValue` of a calculation's result.
    pub recompute_settles :
        (o : ℕ) (s : State V) (Y : ℕ → Type 0)
        → Settled (λ u. Y u ⊎ (u ≡ o)) s
        → Settled
            (λ u. Y u ⊎ ((recompute net calc_node o s).0 ≡ true) × (mem u (net.observers o) ≡ true))
            (recompute net calc_node o s).1
    unfolding recompute update_value
    recompute_settles o s Y h = elim (Bool-cases (net.ne (s.value o) (net.fun o s.value))) [
      | inl differs ↦ rw differs (
          Settled_mono (update s.value o (net.fun o s.value))
            (λ u t. elim [ inl y ↦ inl y | inr m ↦ inr (refl, m) ]) (write_settles o s.value Y h))
      | inr same ↦ rw same λ u t. elim (h u t) [
        | inl agrees ↦ inl agrees
        | inr (inl y) ↦ inr (inl y)
        | inr (inr u≡o) ↦ inl (rw u≡o (sane.ne_false (s.value o) (net.fun o s.value) same))
      ]
    ]

    -- A tracked calculation that is told of a change recomputes.
    pub held_back :
        (o : ℕ) (c : Bool) (s : State V)
        → IsTracked o
        → c ≡ true
        → check_trig (net.trigger o) o (set_changed (net.trigger o) o c s) ≡ false
        → ⊥
    unfolding check_trig set_changed update
    held_back o c s (_, inl always) now e = true≢false (rw always at e)
    held_back o c s (_, inr change) now e = true≢false (sym now ∙ rw (change, nat_beq_self o) at e)

    -- One observer, and the calls below it.
    handle-Settles :
        (rec : Notify net) (o : ℕ) (c : Bool) (s s' : State V) (Y : ℕ → Type 0)
        → Settles rec
        → net.kind o ≡ calc_node
        → handle_change net rec calc_node o c s ≡ some s'
        → Settled (λ u. Y u ⊎ (c ≡ true) × (u ≡ o)) s
        → Settled Y s'
    unfolding handle_change check_trig
    handle-Settles rec o c s s' Y r calc e h =
        let t = net.trigger o in
        let s1 = set_changed t o c s in
        let h1 : Settled (λ u. Y u ⊎ (c ≡ true) × (u ≡ o)) s1 =
          subst (SettledAt (λ u. Y u ⊎ (c ≡ true) × (u ≡ o))) (sym (flag_value t o c s)) h in
        elim (Bool-cases (check_trig t o s1)) [
          | inl passes ↦
              r o (recompute net calc_node o s1).0 (recompute net calc_node o s1).1 s' Y
                (rw (passes, handle_change) at e)
                (recompute_settles o s1 Y
                  (Settled_mono s1.value (λ u k. elim [ inl y ↦ inl y | inr p ↦ inr p.1 ]) h1))
          | inr stays ↦
              let done : some s1 ≡ some s' = rw stays at e in
              subst (λ (x : State V). Settled Y x) (same_state done)
                (λ u k. elim (h1 u k) [
                  | inl agrees ↦ inl agrees
                  | inr (inl y) ↦ inr y
                  | inr (inr (now, u≡o)) ↦
                      absurd (held_back o c s (subst IsTracked u≡o k) now stays)
                ])
        ]

    value_changed-Settles :
        (rec : Notify net) (o : ℕ) (k : Kind) (c : Bool) (s s' : State V) (Y : ℕ → Type 0)
        → Settles rec
        → net.kind o ≡ k
        → value_changed net rec k o c s ≡ some s'
        → Settled (λ u. Y u ⊎ (c ≡ true) × (u ≡ o)) s
        → Settled Y s'
    unfolding value_changed handle_change recompute check_trig
    value_changed-Settles rec o var_node c s s' Y r e eq h = r o c s s' Y eq (
        Settled_mono s.value
          (λ u t. elim [
            | inl y ↦ inl y
            | inr (_, u≡o) ↦
                absurd (not-IsTracked_kind e (λ p. var_is_no_calc p) (subst IsTracked u≡o t))
          ])
          h)
    value_changed-Settles rec o calc_node c s s' Y r e eq h = handle-Settles rec o c s s' Y r e eq h
    value_changed-Settles rec o action_node c s s' Y r e eq h =
        let s1 = set_changed (net.trigger o) o c s in
        let excuse : (P : ℕ → Type 0) → Settled (λ u. Y u ⊎ P u) s1 = λ P.
          subst (SettledAt _) (sym (flag_value (net.trigger o) o c s)) (
            Settled_mono s.value
              (λ u t. elim [
                | inl y ↦ inl y
                | inr (_, u≡o) ↦
                    absurd (not-IsTracked_kind e (λ p. action_is_no_calc p) (subst IsTracked u≡o t))
              ])
              h) in
        elim (Bool-cases (check_trig (net.trigger o) o s1)) [
          | inl passes ↦
              let call : rec o true s1 ≡ some s' = rw passes at eq in
              r o true s1 s' Y call (excuse (λ u. (true ≡ true) × (mem u (net.observers o) ≡ true)))
          | inr stays ↦
              let done : some s1 ≡ some s' = rw stays at eq in
              subst (λ (x : State V). Settled Y x) (same_state done)
                (Settled_mono s1.value (λ u t. elim [ inl y ↦ y | inr p ↦ absurd p ])
                  (excuse (λ u. ⊥)))
        ]

    each-Settles :
        (rec : Notify net) (os : List ℕ) (c : Bool) (s s' : State V) (X : ℕ → Type 0)
        → Settles rec
        → notify_each net rec os c s ≡ some s'
        → Settled (λ u. X u ⊎ (c ≡ true) × (mem u os ≡ true)) s
        → Settled X s'
    unfolding notify_each mem
    each-Settles rec [] c s s' X r e h =
        subst (λ (x : State V). Settled X x) (same_state e)
          (Settled_mono s.value
            (λ u t. elim [ inl x ↦ x | inr (_, m) ↦ absurd (true≢false (sym m)) ]) h)
    each-Settles rec (o ∷ os) c s s' X r e h =
        elim (Option-cases (value_changed net rec (net.kind o) o c s)) [
          | inl failed ↦ absurd (missing (rw (failed, notify_each) at e))
          | inr (s1, eq) ↦ each-Settles rec os c s1 s' X r (rw (eq, notify_each) at e) (
              value_changed-Settles rec o (net.kind o) c s s1
                (λ u. X u ⊎ (c ≡ true) × (mem u os ≡ true)) r refl eq
                (Settled_mono s.value
                  (λ u t. elim [
                    | inl x ↦ inl (inl x)
                    | inr (now, m) ↦ elim (Bool-cases (nat_beq u o)) [
                      | inl same ↦ inr (now, (nat_beq_iff u o).0 same)
                      | inr other ↦ inl (inr (now, rw other at m))
                    ]
                  ])
                  h))
        ]
      where
        missing : {x : State V} → none ≡ some x → ⊥
        missing p = cc

    pub notify-Settles : (fuel : ℕ) → Settles (notify net fuel)
    unfolding notify
    notify-Settles zero n c s s' X e h = absurd (missing e)
      where
        missing : {x : State V} → none ≡ some x → ⊥
        missing p = cc
    notify-Settles (suc fuel) n c s s' X e h =
        each-Settles (notify net fuel) (net.observers n) c s s' X (notify-Settles fuel) e h
