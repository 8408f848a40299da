-- ===== src/Batch/Sort.antt =====
-- `m_batchNodes` (include/reaction/graph/batch.h) is ordered by depth.
use reaction.Prelude.{
  ℕ, ◌≤◌, ◌≡◌, refl, sym, ◌∙◌, inl, inr, Bool, true, false, ◌||◌, List, [], ◌∷◌, ltb, nat_beq,
  nat_beq_iff, mem, arith, Bool-cases,
}
use mathlib.Core.Bool.{true≢false}
use mathlib.Core.Path.{subst}
use reaction.Graph.State.{Graph}
use reaction.Batch.{batch_compare, multiset_insert, order_nodes}

module _ (g : Graph) where
  -- The depths rise along the list.
  abbrev pub IsSorted : List ℕ → Type 0
  IsSorted [] = Unit
  IsSorted (n ∷ ns) = ((m : ℕ) → mem m ns ≡ true → g.depth n ≤ g.depth m) × IsSorted ns

  pub mem-multiset_insert :
      (n u : ℕ) (ms : List ℕ) → mem u (multiset_insert g n ms) ≡ (nat_beq u n || mem u ms)
  unfolding multiset_insert mem
  mem-multiset_insert n u [] = refl
  mem-multiset_insert n u (m ∷ ms) = ground (arith, mem-multiset_insert n u ms)

  pub mem-order_nodes :
      (u : ℕ) (ns nodes : List ℕ) → mem u (order_nodes g ns nodes) ≡ (mem u ns || mem u nodes)
  unfolding order_nodes mem
  mem-order_nodes u [] nodes = refl
  mem-order_nodes u (n ∷ ns) nodes =
      ground
        (arith, mem-order_nodes u ns (multiset_insert g n nodes), mem-multiset_insert n u nodes)

  -- An insertion keeps the list sorted.
  multiset_insert-IsSorted :
      (n : ℕ) (ms : List ℕ)
      → g.alive n ≡ true
      → ((m : ℕ) → mem m ms ≡ true → g.alive m ≡ true)
      → IsSorted ms
      → IsSorted (multiset_insert g n ms)
  unfolding multiset_insert batch_compare mem
  multiset_insert-IsSorted n [] ln lm s = ((λ m h. absurd (true≢false (sym h))), tt)
  multiset_insert-IsSorted n (m ∷ ms) ln lm s =
      let lives = lm m (rw ((nat_beq_iff m m).1 refl)) in
      let ih = multiset_insert-IsSorted n ms ln (λ k h. lm k (later k h)) s.1 in
      elim (Bool-cases (ltb (g.depth n) (g.depth m))) [
        | inl less ↦ rw (ln, lives, less) ((λ k h. ground (arith, s.0 k, nat_beq_iff k m)), s)
        | inr more ↦
            rw (ln, lives, more)
              ((λ k h. ground (arith, mem-multiset_insert n k ms, s.0 k, nat_beq_iff k n)), ih)
      ]
    where
      later : (k : ℕ) → mem k ms ≡ true → (nat_beq k m || mem k ms) ≡ true
      later k h = ground arith

  pub order_nodes-IsSorted :
      (ns nodes : List ℕ)
      → ((m : ℕ) → mem m ns ≡ true → g.alive m ≡ true)
      → ((m : ℕ) → mem m nodes ≡ true → g.alive m ≡ true)
      → IsSorted nodes
      → IsSorted (order_nodes g ns nodes)
  unfolding order_nodes mem
  order_nodes-IsSorted [] nodes l k s = s
  order_nodes-IsSorted (n ∷ ns) nodes l k s =
      let ln = l n (rw ((nat_beq_iff n n).1 refl)) in
      order_nodes-IsSorted ns (multiset_insert g n nodes) (λ m h. l m (later m h))
        (λ m h. elim (Bool-cases (nat_beq m n)) [
          | inl same ↦ subst (λ y. g.alive y ≡ true) (sym ((nat_beq_iff m n).0 same)) ln
          | inr other ↦ k m (before other (sym (mem-multiset_insert n m nodes) ∙ h))
        ])
        (multiset_insert-IsSorted n nodes ln k s)
    where
      later : (m : ℕ) → mem m ns ≡ true → (nat_beq m n || mem m ns) ≡ true
      later m h = ground arith

      before : {b c : Bool} → b ≡ false → (b || c) ≡ true → c ≡ true
      before e h = ground arith
