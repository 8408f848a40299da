-- ===== src/Batch/Order.antt =====
-- Recomputing nodes in an order in which each comes before its observers settles the network.
use reaction.Prelude.{
  ℕ, ◌≡◌, ◌≢◌, refl, sym, ap, ◌∙◌, ◌⊎◌, inl, inr, Bool, true, false, ◌||◌, List, [], ◌∷◌,
  if◌then◌else◌, nat_beq, nat_beq_iff, mem, arith, Bool-cases, if_true, if_false,
}
use mathlib.Core.Bool.{true≢false}
use mathlib.Core.Path.{subst}
use reaction.Exception.{Result, ok}
use reaction.Graph.State.{Graph, update}
use reaction.Propagation.{
  Network, State, Kind, var_node, calc_node, action_node, set_changed, check_trig, recompute,
  update_value, changed_no_notify, set_value,
}
use reaction.Propagation.Settle.{
  IsSensible, IsTracked, Settled, SettledAt, Settled_mono, recompute_settles, flag_value,
  not-IsTracked_kind, held_back, fun_other,
}
use reaction.Propagation.Answers.{KeepsVars, flag_keeps, update_keeps}
use reaction.Batch.{change_nodes, run_values}
use reaction.Batch.Nodes.{IsOrderedBy, written}

module _ {V : Type 0} (net : Network V) where
  module _ (sane : IsSensible net) where
    one_settles :
        (o : ℕ) (k : Kind) (s : State V) (Y : ℕ → Type 0)
        → net.kind o ≡ k
        → ((u : ℕ) → mem u (net.observers o) ≡ true → Y u)
        → Settled net (λ u. Y u ⊎ (u ≡ o)) s
        → Settled net Y (changed_no_notify net k o true s)
    unfolding changed_no_notify recompute
    one_settles o var_node s Y e after h =
        Settled_mono net s.value
          (λ u t. elim [
            | inl y ↦ y
            | inr same ↦
                absurd (not-IsTracked_kind net sane e (λ p. cc) (subst (IsTracked net) same t))
          ])
          h
    one_settles o calc_node s Y e after h =
        let s1 = set_changed (net.trigger o) o true s in
        let h1 : Settled net (λ u. Y u ⊎ (u ≡ o)) s1 =
          subst (SettledAt net (λ u. Y u ⊎ (u ≡ o)))
            (sym (flag_value net sane (net.trigger o) o true s)) h in
        elim (Bool-cases (check_trig (net.trigger o) o s1)) [
          | inl passes ↦ subst (Settled net Y) (sym (if_true passes _ _)) (
              Settled_mono net (recompute net calc_node o s1).1.value
                (λ u t. elim [ inl y ↦ y | inr (_, m) ↦ after u m ])
                (recompute_settles net sane o s1 Y h1))
          | inr stays ↦ subst (Settled net Y) (sym (if_false stays _ _)) (
              Settled_mono net s1.value
                (λ u t. elim [
                  | inl y ↦ y
                  | inr same ↦
                      absurd (held_back net sane o true s (subst (IsTracked net) same t) refl stays)
                ])
                h1)
        ]
    one_settles o action_node s Y e after h =
        let s1 = set_changed (net.trigger o) o true s in
        let h1 : Settled net Y s1 =
          subst (SettledAt net Y) (sym (flag_value net sane (net.trigger o) o true s)) (
            Settled_mono net s.value
              (λ u t. elim [
                | inl y ↦ y
                | inr same ↦
                    absurd (not-IsTracked_kind net sane e (λ p. cc) (subst (IsTracked net) same t))
              ])
              h) in
        elim (Bool-cases (check_trig (net.trigger o) o s1)) [
          | inl passes ↦ subst (Settled net Y) (sym (if_true passes _ _)) h1
          | inr stays ↦ subst (Settled net Y) (sym (if_false stays _ _)) h1
        ]

    pub change_nodes_settles :
        (g : Graph) (ns : List ℕ) (s : State V)
        → ((u : ℕ) → mem u ns ≡ true → g.alive u ≡ true)
        → IsOrderedBy net.observers ns
        → Settled net (λ u. mem u ns ≡ true) s
        → Settled net (λ u. ⊥) (change_nodes net g ns s)
    unfolding change_nodes mem
    change_nodes_settles g [] s live order h =
        Settled_mono net s.value (λ u t m. absurd (true≢false (sym m))) h
    change_nodes_settles g (n ∷ ns) s live order h =
        let ln = live n (rw ((nat_beq_iff n n).1 refl)) in
        change_nodes_settles g ns
          (if g.alive n then changed_no_notify net (net.kind n) n true s else s)
          (λ u m. live u (later u n ns m)) order.1
          (subst (Settled net (λ u. mem u ns ≡ true)) (sym (if_true ln _ _)) (
            one_settles n (net.kind n) s (λ u. mem u ns ≡ true) refl order.0
              (Settled_mono net s.value
                (λ u t m. elim (Bool-cases (nat_beq u n)) [
                  | inl same ↦ inr ((nat_beq_iff u n).0 same)
                  | inr other ↦ inl (rest other m)
                ])
                h)))
      where
        later : (u n : ℕ) (ns : List ℕ) → mem u ns ≡ true → (nat_beq u n || mem u ns) ≡ true
        later u n ns h = ground arith

        rest : {b c : Bool} → b ≡ false → (b || c) ≡ true → c ≡ true
        rest e h = ground arith

  change_keeps :
      (o : ℕ) (k : Kind) (s : State V)
      → net.kind o ≡ k
      → KeepsVars net s (changed_no_notify net k o true s)
  unfolding changed_no_notify recompute
  change_keeps o var_node s e u v = refl
  change_keeps o calc_node s e u v =
      let s1 = set_changed (net.trigger o) o true s in
      let flag = flag_keeps net (net.trigger o) o true s u v in
      elim (Bool-cases (check_trig (net.trigger o) o s1)) [
        | inl passes ↦
            ap (λ (x : State V). x.value u) (if_true passes _ _)
            ∙ update_keeps net o (net.fun o s1.value) s1 e u v
            ∙ flag
        | inr stays ↦ ap (λ (x : State V). x.value u) (if_false stays _ _) ∙ flag
      ]
  change_keeps o action_node s e u v =
      let s1 = set_changed (net.trigger o) o true s in
      let flag = flag_keeps net (net.trigger o) o true s u v in
      elim (Bool-cases (check_trig (net.trigger o) o s1)) [
        | inl passes ↦ ap (λ (x : State V). x.value u) (if_true passes _ _) ∙ flag
        | inr stays ↦ ap (λ (x : State V). x.value u) (if_false stays _ _) ∙ flag
      ]

  pub change_nodes_keeps :
      (g : Graph) (ns : List ℕ) (s : State V) → KeepsVars net s (change_nodes net g ns s)
  unfolding change_nodes
  change_nodes_keeps g [] s u v = refl
  change_nodes_keeps g (n ∷ ns) s u v = elim (Bool-cases (g.alive n)) [
    | inl live ↦
        ap (λ (x : State V). (change_nodes net g ns x).value u) (if_true live _ _)
        ∙ change_nodes_keeps g ns (changed_no_notify net (net.kind n) n true s) u v
        ∙ change_keeps n (net.kind n) s refl u v
    | inr gone ↦
        ap (λ (x : State V). (change_nodes net g ns x).value u) (if_false gone _ _)
        ∙ change_nodes_keeps g ns s u v
  ]

  -- The value that the last write of a variable leaves.
  abbrev pub last_write : List (ℕ × V) → ℕ → V → V
  last_write [] m old = old
  last_write ((n, v) ∷ calls) m old = last_write calls m (if nat_beq n m then v else old)

  -- Writing a variable excuses its observers.
  write_settles :
      (n : ℕ) (v : V) (s : State V) (P : ℕ → Type 0)
      → IsSensible net
      → net.kind n ≡ var_node
      → Settled net P s
      → Settled net (λ u. P u ⊎ (mem u (net.observers n) ≡ true)) (update_value net.ne n v s).1
  unfolding update_value update
  write_settles n v s P sane var h u t = elim (Bool-cases (net.ne (s.value n) v)) [
    | inr same ↦ elim (h u t) [ inl agrees ↦ inl (rw same agrees) | inr p ↦ inr (inl p) ]
    | inl differs ↦ elim (Bool-cases (mem u (net.observers n))) [
      | inl follows ↦ inr (inr follows)
      | inr away ↦ elim (h u t) [
        | inr p ↦ inr (inl p)
        | inl agrees ↦ elim (Bool-cases (nat_beq n u)) [
          | inl same ↦
              absurd (apart (sym var ∙ ap (λ y. net.kind y) ((nat_beq_iff n u).0 same) ∙ t.0))
          | inr other ↦
              inl (
                rw differs
                  (written_at other ∙ agrees ∙ sym (fun_other net sane n u s.value v away)))
        ]
      ]
    ]
  ]
    where
      apart : var_node ≢ calc_node
      apart p = cc

      written_at : {u : ℕ} → nat_beq n u ≡ false → update s.value n v u ≡ s.value u
      written_at other = rw other

  write_value :
      (n m : ℕ) (v : V) (s : State V)
      → IsSensible net
      → (update_value net.ne n v s).1.value m ≡ (if nat_beq n m then v else s.value m)
  unfolding update_value update
  write_value n m v s sane = elim (Bool-cases (net.ne (s.value n) v)) [
    | inl differs ↦ rw differs
    | inr same ↦ elim (Bool-cases (nat_beq n m)) [
      | inl here ↦
          rw (same, here)
            (ap (λ y. s.value y) (sym ((nat_beq_iff n m).0 here))
              ∙ sane.ne_false (s.value n) v same)
      | inr other ↦ rw (same, other)
    ]
  ]

  first_write :
      (g : Graph) (n : ℕ) (v : V) (calls : List (ℕ × V)) (s : State V)
      → g.alive n ≡ true
      → run_values net g ((n, v) ∷ calls) s ≡ run_values net g calls (update_value net.ne n v s).1
  unfolding run_values set_value
  first_write g n v calls s live = rw (live, run_values)

  -- What the second run of a function leaves, before any node is recomputed.
  pub record Written (calls : List (ℕ × V)) (s : State V) (P : ℕ → Type 0)
      (call : Result (State V) (Unit {0})) : Type 0 where
    pub s' : State V
    pub result : call ≡ ok tt s'
    pub settled :
        Settled net
          (λ u. P u ⊎ ((n : ℕ) × (mem n (written calls) ≡ true) × (mem u (net.observers n) ≡ true)))
          s'
    pub values : (m : ℕ) → s'.value m ≡ last_write calls m (s.value m)

  pub run_values_lem :
      (g : Graph) (calls : List (ℕ × V)) (s : State V) (P : ℕ → Type 0)
      → IsSensible net
      → ((n : ℕ) → mem n (written calls) ≡ true → (g.alive n ≡ true) × (net.kind n ≡ var_node))
      → Settled net P s
      → Written calls s P (run_values net g calls s)
  unfolding run_values mem
  run_values_lem g [] s P sane fits h = record {
    s' = s;
    result = refl;
    settled = Settled_mono net s.value (λ u t p. inl p) h;
    values = λ m. refl;
  }
  run_values_lem g ((n, v) ∷ calls) s P sane fits h =
      let (live, var) = fits n (first n (written calls)) in
      let s1 = (update_value net.ne n v s).1 in
      let b =
        run_values_lem g calls s1 (λ u. P u ⊎ (mem u (net.observers n) ≡ true)) sane
          (λ m i. fits m (later m n (written calls) i)) (write_settles n v s P sane var h) in
      record {
        s' = b.s';
        result = first_write g n v calls s live ∙ b.result;
        settled =
            Settled_mono net b.s'.value
              (λ u t. elim [
                | inl (inl p) ↦ inl p
                | inl (inr m) ↦ inr (n, first n (written calls), m)
                | inr (x, i, m) ↦ inr (x, later x n (written calls) i, m)
              ])
              b.settled;
        values = λ m. b.values m ∙ ap (last_write calls m) (write_value n m v s sane);
      }
    where
      first : (x : ℕ) (xs : List ℕ) → (nat_beq x x || mem x xs) ≡ true
      first x xs = rw ((nat_beq_iff x x).1 refl)

      later : (u x : ℕ) (xs : List ℕ) → mem u xs ≡ true → (nat_beq u x || mem u xs) ≡ true
      later u x xs k = ground arith
