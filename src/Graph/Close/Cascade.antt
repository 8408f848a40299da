-- ===== src/Graph/Close/Cascade.antt =====
-- `closeNode` of observer_graph.h: the node and all that depends on it are removed, in one pass.
use reaction.Prelude.{
  ℕ, zero, suc, ◌<◌, ◌≡◌, sym, ◌∙◌, ◌⊎◌, inl, inr, true, false, ◌||◌, some, ◌∷◌, nat_eq, nat_beq,
  nat_beq_iff, mem, insert, find, mem-insert, arith, Bool-cases, Option-cases,
}
use mathlib.Core.Path.{subst}
use reaction.Prelude.Walks.{Walk, Reach, here, Reach-of_Walk, Grounded-not-Walk}
use reaction.Graph.State.{Graph, NodeSet, contains, dependents}
use reaction.Graph.Edges.{Edge}
use reaction.Graph.Invariant.{IsWellFormed}
use reaction.Graph.Search.Fuel.{unseen, unseen-insert}
use reaction.Graph.Close.{close_last, cascade_close_dependents, close_node_internal}
use reaction.Graph.Close.Leaf.{close_node_internal_lem}
use reaction.Graph.Close.Loop.{Without, Closed, Marks, Progress, Closes, observers-Progress}

module _ (g0 : Graph) (w0 : IsWellFormed g0) where
  already_gone :
      (n : ℕ) (marks gone pending : NodeSet)
      → Marks g0 w0 marks gone pending
      → ((p : ℕ) → mem p pending ≡ true → Walk (Edge g0) n p)
      → mem n marks ≡ true
      → mem n gone ≡ true
  already_gone n marks gone pending m up seen = elim (Bool-cases (mem n pending)) [
    | inl waiting ↦ absurd (Grounded-not-Walk (w0.acyclic n) (up n waiting))
    | inr settled ↦ ground (arith, m n)
  ]

  -- The node's own removal after all its observers are gone.
  remove_last :
      (n : ℕ) (gone pending marks : NodeSet) (g : Graph)
      → Marks g0 w0 marks gone (n ∷ pending)
      → Without gone g0 g
      → Closed g0 w0 gone
      → contains g0 n ≡ true
      → mem n gone ≡ false
      → ((a : ℕ) → mem n (dependents g0 a) ≡ true → mem a gone ≡ true)
      → Marks g0 w0 marks (n ∷ gone) pending
        × Without (n ∷ gone) g0 (close_node_internal n g)
        × Closed g0 w0 (n ∷ gone)
  unfolding mem
  remove_last n gone pending marks g m w c k out all =
      let r =
        close_node_internal_lem n g w.valid (ground (arith, w.keys n))
          (λ a. ground (arith, w.deps a n, all a)) in
      (
        λ x. ground (arith, m x),
        record {
          valid = r.valid;
          keys = λ x. ground (arith, r.keys x, w.keys x, nat_beq_iff n x, nat_beq_iff x n);
          deps = λ x y. ground (arith, r.deps x y, w.deps x y, nat_beq_iff n x, nat_beq_iff x n);
          alive = λ x. r.alive x ∙ w.alive x;
        },
        λ a b edge h. elim (Bool-cases (nat_beq b n)) [
          | inl same ↦ ground (
            arith,
            all a (subst (λ x. mem x (dependents g0 a) ≡ true) ((nat_beq_iff b n).0 same) edge),
          )
          | inr other ↦ ground (arith, c a b edge)
        ],
      )

  marks_insert :
      (n x : ℕ) (marks gone pending : NodeSet)
      → mem x marks ≡ (mem x gone || mem x pending)
      → mem x (insert n marks) ≡ (mem x gone || mem x (n ∷ pending))
  unfolding mem
  marks_insert n x marks gone pending m = ground (arith, m, mem-insert x n marks)

  up_cons :
      (n : ℕ) (pending : NodeSet)
      → ((p : ℕ) → mem p pending ≡ true → Walk (Edge g0) n p)
      → (p : ℕ) → mem p (n ∷ pending) ≡ true
      → Reach (Edge g0) n p
  unfolding mem
  up_cons n pending up p h = elim (Bool-cases (nat_beq p n)) [
    | inl same ↦ subst (λ x. Reach (Edge g0) n x) (sym ((nat_beq_iff p n).0 same)) here
    | inr other ↦ Reach-of_Walk (up p (ground arith))
  ]

  fewer_unseen :
      (n : ℕ) (marks : NodeSet) (fuel : ℕ)
      → contains g0 n ≡ true
      → mem n marks ≡ false
      → unseen g0.dependent_list marks < suc fuel
      → unseen g0.dependent_list (insert n marks) < fuel
  fewer_unseen n marks fuel k new enough = elim (Option-cases (find n g0.dependent_list)) [
    | inl missing ↦ ground arith
    | inr (ds, there) ↦ omega (arith, unseen-insert g0.dependent_list n marks ds there new)
  ]

  not_yet :
      (n : ℕ) (gone gone' : NodeSet)
      → ((k : ℕ) → mem k gone' ≡ true → (mem k gone ≡ true) ⊎ Walk (Edge g0) k n)
      → mem n gone ≡ false
      → mem n gone' ≡ false
  not_yet n gone gone' why fresh = elim (Bool-cases (mem n gone')) [
    | inr out ↦ out
    | inl gone_now ↦ elim (why n gone_now) [
      | inl before ↦ ground arith
      | inr loop ↦ absurd (Grounded-not-Walk (w0.acyclic n) loop)
    ]
  ]

  observer_gone :
      (n a : ℕ) (g : Graph) (gone gone' : NodeSet)
      → Without gone g0 g
      → mem n gone ≡ false
      → ((k : ℕ) → mem k gone ≡ true → mem k gone' ≡ true)
      → ((o : ℕ) → mem o (g.observers n) ≡ true → mem o gone' ≡ true)
      → mem n (dependents g0 a) ≡ true
      → mem a gone' ≡ true
  observer_gone n a g gone gone' w fresh grown all h = elim (Bool-cases (mem a gone)) [
    | inl before ↦ grown a before
    | inr still ↦ all a (ground (arith, w.valid.symmetric a n, w.deps a n))
  ]

  mem_head : (n : ℕ) (s : NodeSet) → mem n (n ∷ s) ≡ true
  unfolding mem
  mem_head n s = ground (arith, nat_beq_iff n n)

  mem_tail : (x n : ℕ) (s : NodeSet) → mem x s ≡ true → mem x (n ∷ s) ≡ true
  unfolding mem
  mem_tail x n s h = ground arith

  reason :
      (n x : ℕ) (gone gone' : NodeSet)
      → (mem x gone' ≡ true → (mem x gone ≡ true) ⊎ Walk (Edge g0) x n)
      → mem x (n ∷ gone') ≡ true
      → (mem x gone ≡ true) ⊎ Reach (Edge g0) x n
  unfolding mem
  reason n x gone gone' why h = elim (Bool-cases (nat_beq x n)) [
    | inl same ↦ inr (subst (λ k. Reach (Edge g0) x k) ((nat_beq_iff x n).0 same) here)
    | inr other ↦ elim (why (ground arith)) [
      | inl before ↦ inl before
      | inr walk ↦ inr (Reach-of_Walk walk)
    ]
  ]

  close_new :
      (fuel n : ℕ) (marks : NodeSet) (g : Graph) (gone pending : NodeSet)
      → Closes g0 w0 fuel (cascade_close_dependents fuel)
      → Marks g0 w0 marks gone pending
      → Without gone g0 g
      → Closed g0 w0 gone
      → contains g0 n ≡ true
      → ((p : ℕ) → mem p pending ≡ true → Walk (Edge g0) n p)
      → unseen g0.dependent_list marks < suc fuel
      → mem n marks ≡ false
      → (marks' : NodeSet) × (g' : Graph) × (gone' : NodeSet) × (cascade_close_dependents
            (suc fuel)
            (some n)
            marks
            g
          ≡ some (marks', g'))
        × Progress g0 w0 (λ k. Reach (Edge g0) k n) pending gone marks' g' gone'
        × (mem n gone' ≡ true)
  close_new fuel n marks g gone pending r m w c k up enough new =
      let fresh : mem n gone ≡ false = ground (arith, m n) in
      let here_now : contains g n ≡ true = ground (arith, w.keys n) in
      let listed : mem n g.observer_list ≡ true = w.valid.same_keys n ∙ here_now in
      let observes : (o : ℕ) → mem o (g.observers n) ≡ mem n (dependents g o) =
        λ o. w.valid.symmetric o n in
      let marked : Marks g0 w0 (insert n marks) gone (n ∷ pending) =
        λ x. marks_insert n x marks gone pending (m x) in
      let (marks1, g1, gone1, e1, p1, all) =
        observers-Progress g0 w0 fuel (cascade_close_dependents fuel) n (g.observers n)
          (insert n marks) g gone (n ∷ pending) r marked w c
          (λ o h. ground (arith, observes o, w.deps o n)) k (λ p h. up_cons n pending up p h)
          (fewer_unseen n marks fuel k new enough) in
      let out : mem n gone1 ≡ false = not_yet n gone gone1 p1.why fresh in
      let (m2, w2, c2) =
        remove_last n gone1 pending marks1 g1 p1.marked p1.without p1.closed k out
          (λ a h. observer_gone n a g gone gone1 w fresh p1.grown all h) in
      (
        marks1,
        close_node_internal n g1,
        n ∷ gone1,
        unfold cascade_close_dependents close_last in rw (new, listed) (rw e1),
        record {
          marked = m2;
          without = w2;
          grown = λ x h. mem_tail x n gone1 (p1.grown x h);
          why = λ x h. reason n x gone gone1 (λ h'. p1.why x h') h;
          closed = c2;
        },
        mem_head n gone1,
      )

  -- The call itself, on enough fuel.
  pub cascade_Closes : (fuel : ℕ) → Closes g0 w0 fuel (cascade_close_dependents fuel)
  unfolding cascade_close_dependents
  cascade_Closes zero n marks g gone pending m w c k up enough = absurd (omega arith)
  cascade_Closes (suc fuel) n marks g gone pending m w c k up enough =
      elim (Bool-cases (mem n marks)) [
        | inl seen ↦ (
          marks,
          g,
          gone,
          rw (seen, cascade_close_dependents),
          record { marked = m; without = w; grown = λ x h. h; why = λ x h. inl h; closed = c },
          already_gone n marks gone pending m up seen,
        )
        | inr new ↦
            close_new fuel n marks g gone pending (cascade_Closes fuel) m w c k up enough new
      ]
