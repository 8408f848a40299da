-- ===== src/Handles/Counting.antt =====
-- The count of a node is the number of its handles (include/reaction/core/react.h).
use reaction.Prelude.{
  ℕ, zero, suc, ◌+◌, ◌-◌, ◌^◌, ◌%◌, ◌≤◌, ◌<◌, ◌≡◌, sym, ap, ◌∙◌, inl, inr, true, false, none, some,
  List, [], ◌∷◌, if◌then◌else◌, nat_beq, nat_beq_iff, nat_eq, length, arith, Bool-cases, if_true,
  if_false,
}
use mathlib.Core.Bool.{true≢false}
use mathlib.Core.Path.{subst}
use reaction.Graph.State.{NodePtr, update}
use reaction.Handles.{
  Invalidation, Refs, at, set_at, remove_at, add_weak_ref, release_weak_ref, safe_add_ref,
  safe_release_ref,
}

-- One if the pointer is to the node, else zero.
unfoldable pub points : ℕ → NodePtr → ℕ
points n none = 0
points n (some m) = if nat_beq n m then 1 else 0

-- How many of the handles are on the node.
unfoldable pub count : ℕ → List NodePtr → ℕ
unfolding points
count n [] = 0
count n (p ∷ ps) = points n p + count n ps

points-le : (n : ℕ) (p : NodePtr) → points n p ≤ 1
unfolding points
points-le n none = omega arith
points-le n (some m) = ground arith

pub count-le_length : (n : ℕ) (ps : List NodePtr) → count n ps ≤ length ps
unfolding count
count-le_length n [] = omega arith
count-le_length n (p ∷ ps) = ground (arith, points-le n p, count-le_length n ps)

pointer : {p q : NodePtr} → some p ≡ some q → p ≡ q
pointer e = cc

pub count-set_at :
    (n i : ℕ) (p q : NodePtr) (ps : List NodePtr)
    → at i ps ≡ some p
    → count n (set_at i q ps) + points n p ≡ count n ps + points n q
unfolding at set_at count
count-set_at n i p q [] e = ground (arith, e)
count-set_at n zero p q (r ∷ ps) e = omega (arith, ap (points n) (pointer e))
count-set_at n (suc i) p q (r ∷ ps) e = omega (arith, count-set_at n i p q ps e)

pub count-remove_at :
    (n i : ℕ) (p : NodePtr) (ps : List NodePtr)
    → at i ps ≡ some p
    → count n (remove_at i ps) + points n p ≡ count n ps
unfolding at remove_at count
count-remove_at n i p [] e = ground (arith, e)
count-remove_at n zero p (r ∷ ps) e = omega (arith, ap (points n) (pointer e))
count-remove_at n (suc i) p (r ∷ ps) e = omega (arith, count-remove_at n i p ps e)

more_count :
    (f : ℕ → ℕ) (m n c : ℕ)
    → f n ≡ c
    → c + 1 < 2 ^ 32
    → update f m ((f m + 1) % 2 ^ 32) n ≡ points n (some m) + c
unfolding update points
more_count f m n c e room = elim (Bool-cases (nat_beq m n)) [
  | inl same ↦ ground (arith, same, e, room, ap f ((nat_beq_iff m n).0 same))
  | inr other ↦ ground (arith, other, e)
]

fewer_count :
    (f : ℕ → ℕ) (m n c : ℕ)
    → f n ≡ points n (some m) + c
    → c + 1 < 2 ^ 32
    → update f m ((f m + (2 ^ 32 - 1)) % 2 ^ 32) n ≡ c
unfolding update points
fewer_count f m n c e room = elim (Bool-cases (nat_beq m n)) [
  | inl same ↦ ground (arith, same, e, room, ap f ((nat_beq_iff m n).0 same))
  | inr other ↦ ground (arith, other, e)
]

points-other : (n m c : ℕ) → nat_beq n m ≡ false → points n (some m) + c ≡ c
unfolding points
points-other n m c other = ground (arith, other)

module _ {W : Type 0} (inv : Invalidation W) where
  -- The counts of the living nodes are as given.
  abbrev pub Counts : Refs W → (ℕ → ℕ) → Type 0
  Counts r c = (n : ℕ) → inv.alive r.world n ≡ true → r.weak_ref_count n ≡ c n

  -- A living node is not one that is gone.
  apart : (w : W) (m n : ℕ) → inv.alive w m ≡ false → inv.alive w n ≡ true → nat_beq n m ≡ false
  apart w m n gone a = elim (Bool-cases (nat_beq n m)) [
    | inl same ↦ absurd (true≢false (sym a ∙ ap (inv.alive w) ((nat_beq_iff n m).0 same) ∙ gone))
    | inr other ↦ other
  ]

  add_weak_ref_lem :
      (m : ℕ) (r : Refs W) (c : ℕ → ℕ)
      → ((n : ℕ) → c n + 1 < 2 ^ 32)
      → Counts r c
      → Counts (add_weak_ref inv m r) (λ n. points n (some m) + c n)
  unfolding add_weak_ref
  add_weak_ref_lem m r c room h n a = more_count r.weak_ref_count m n (c n) (h n a) (room n)

  pub safe_add_ref_lem :
      (p : NodePtr) (r : Refs W) (c : ℕ → ℕ)
      → ((n : ℕ) → c n + 1 < 2 ^ 32)
      → Counts r c
      → Counts (safe_add_ref inv p r) (λ n. points n p + c n)
  unfolding safe_add_ref points
  safe_add_ref_lem none r c room h = λ n a. omega (arith, h n a)
  safe_add_ref_lem (some m) r c room h = elim (Bool-cases (inv.alive r.world m)) [
    | inl there ↦
        subst (λ s. Counts s (λ n. points n (some m) + c n)) (sym (if_true there _ _))
          (add_weak_ref_lem m r c room h)
    | inr gone ↦
        subst (λ s. Counts s (λ n. points n (some m) + c n)) (sym (if_false gone _ _))
          λ n a. h n a ∙ sym (points-other n m (c n) (apart r.world m n gone a))
  ]

  release_weak_ref_lem :
      (m : ℕ) (r : Refs W) (c : ℕ → ℕ)
      → ((n : ℕ) → c n + 1 < 2 ^ 32)
      → Counts r (λ n. points n (some m) + c n)
      → Counts (release_weak_ref inv m r) c
  unfolding release_weak_ref
  release_weak_ref_lem m r c room h =
      elim (Bool-cases (nat_beq ((r.weak_ref_count m + (2 ^ 32 - 1)) % 2 ^ 32) 0)) [
        | inl last ↦
            subst (λ s. Counts s c) (sym (if_true last _ _)) λ n a. left n (inv.dies m r.world n a)
        | inr more ↦ subst (λ s. Counts s c) (sym (if_false more _ _)) left
      ]
    where
      left :
          (n : ℕ)
          → inv.alive r.world n ≡ true
          → update r.weak_ref_count m ((r.weak_ref_count m + (2 ^ 32 - 1)) % 2 ^ 32) n ≡ c n
      left n a = fewer_count r.weak_ref_count m n (c n) (h n a) (room n)

  pub safe_release_ref_lem :
      (p : NodePtr) (r : Refs W) (c : ℕ → ℕ)
      → ((n : ℕ) → c n + 1 < 2 ^ 32)
      → Counts r (λ n. points n p + c n)
      → Counts (safe_release_ref inv p r) c
  unfolding safe_release_ref points
  safe_release_ref_lem none r c room h = λ n a. omega (arith, h n a)
  safe_release_ref_lem (some m) r c room h = elim (Bool-cases (inv.alive r.world m)) [
    | inl there ↦
        subst (λ s. Counts s c) (sym (if_true there _ _)) (release_weak_ref_lem m r c room h)
    | inr gone ↦
        subst (λ s. Counts s c) (sym (if_false gone _ _))
          λ n a. h n a ∙ points-other n m (c n) (apart r.world m n gone a)
  ]
