-- ===== src/Prelude/Walks.antt =====
-- Walks along the edges of a relation on nodes, and nodes from which every walk ends.
use Prim.Native.Nat.{ℕ}
use mathlib.Core.Path.{◌≡◌, sym, subst}
use mathlib.Core.Logic.{◌⊎◌, inl, inr}
use mathlib.Core.Bool.{false}
use reaction.Prelude.Tests.{nat_beq, nat_beq_iff, Bool-cases}

-- Walks of at least one edge.
pub data Walk (E : ℕ → ℕ → Type 0) : ℕ → ℕ → Type 0 where
  one : {a b : ℕ} → E a b → Walk E a b
  more : {a b c : ℕ} → E a b → Walk E b c → Walk E a c

-- Walks of any length.
pub data Reach (E : ℕ → ℕ → Type 0) : ℕ → ℕ → Type 0 where
  here : {a : ℕ} → Reach E a a
  via : {a b c : ℕ} → E a b → Reach E b c → Reach E a c

-- Every walk from the node ends.
pub data Grounded (E : ℕ → ℕ → Type 0) : ℕ → Type 0 where
  grounded : (a : ℕ) → ((b : ℕ) → E a b → Grounded E b) → Grounded E a

module _ {E : ℕ → ℕ → Type 0} where
  pub Reach-trans : {a b c : ℕ} → Reach E a b → Reach E b c → Reach E a c
  Reach-trans here s = s
  Reach-trans (via e r) s = via e (Reach-trans r s)

  pub Walk-of_edge : {a b c : ℕ} → E a b → Reach E b c → Walk E a c
  Walk-of_edge e here = one e
  Walk-of_edge e (via f r) = more e (Walk-of_edge f r)

  pub Walk-trans : {a b c : ℕ} → Walk E a b → E b c → Walk E a c
  Walk-trans (one e) f = more e (one f)
  Walk-trans (more e w) f = more e (Walk-trans w f)

  pub Reach-of_Walk : {a b : ℕ} → Walk E a b → Reach E a b
  Reach-of_Walk (one e) = via e here
  Reach-of_Walk (more e w) = via e (Reach-of_Walk w)

  pub Walk-then : {a b c : ℕ} → Reach E a b → E b c → Walk E a c
  Walk-then here f = one f
  Walk-then (via e r) f = more e (Walk-then r f)

  pub Grounded-next : {a b : ℕ} → Grounded E a → E a b → Grounded E b
  Grounded-next (grounded a h) e = h _ e

  pub Grounded-not-Walk : {a : ℕ} → Grounded E a → ¬ Walk E a a
  Grounded-not-Walk (grounded a h) (one e) = Grounded-not-Walk (h a e) (one e)
  Grounded-not-Walk (grounded a h) (more {b} e w) = Grounded-not-Walk (h b e) (Walk-trans w e)

pub Reach-map :
    {E F : ℕ → ℕ → Type 0} {a b : ℕ} → ((x y : ℕ) → E x y → F x y) → Reach E a b → Reach F a b
Reach-map f here = here
Reach-map f (via {a} {b} e r) = via (f a b e) (Reach-map f r)

pub Grounded-map :
    {E F : ℕ → ℕ → Type 0} {a : ℕ} → ((x y : ℕ) → F x y → E x y) → Grounded E a → Grounded F a
Grounded-map f (grounded a h) = grounded a (λ b e. Grounded-map f (h b (f a b e)))

-- `F` is `E` and perhaps one edge more, from `s` to `t`.
module _ {E F : ℕ → ℕ → Type 0} (s t : ℕ)
    (extra : (x y : ℕ) → F x y → E x y ⊎ (x ≡ s) × (y ≡ t)) where
  -- A walk of `F` is one of `E`, or leads to `s` and from `t` by edges of `E`.
  pub Walk-split : {a b : ℕ} → Walk F a b → Walk E a b ⊎ Reach E a s × Reach E t b
  Walk-split (one {a} {b} e) = elim (extra a b e) [
    | inl old ↦ inl (one old)
    | inr (p, q) ↦ inr (subst (λ x. Reach E a x) p here, subst (λ x. Reach E x b) q here)
  ]
  Walk-split (more {a} {b} {c} e w) = elim (extra a b e) [
    | inl old ↦ elim (Walk-split w) [
      | inl v ↦ inl (more old v)
      | inr (to, from) ↦ inr (via old to, from)
    ]
    | inr (p, q) ↦ elim (Walk-split w) [
      | inl v ↦ inr (subst (λ x. Reach E a x) p here, subst (λ x. Reach E x c) q (Reach-of_Walk v))
      | inr (to, from) ↦ inr (subst (λ x. Reach E a x) p here, from)
    ]
  ]

  off_source : {a : ℕ} → Grounded E a → ¬ Reach E a s → Grounded F a
  off_source (grounded a h) away = grounded a λ b e. elim (extra a b e) [
    | inl old ↦ off_source (h b old) (λ r. away (via old r))
    | inr (p, q) ↦ absurd (away (subst (λ x. Reach E a x) p here))
  ]

  -- A new edge from a grounded node keeps it grounded unless the target leads back to it.
  pub Grounded-new_edge : Grounded E s → Grounded E t → ¬ Reach E t s → Grounded F s
  Grounded-new_edge at_s at_t away = grounded s λ b e. elim (extra s b e) [
    | inl old ↦
        off_source (Grounded-next at_s old) (λ r. Grounded-not-Walk at_s (Walk-of_edge old r))
    | inr (p, q) ↦ subst (λ x. Grounded F x) (sym q) (off_source at_t away)
  ]

  -- If `s` is grounded in `F`, so is every node that is grounded in `E`.
  pub Grounded-extend : {a : ℕ} → Grounded F s → Grounded E a → Grounded F a
  Grounded-extend at_s (grounded a h) = grounded a λ b e. elim (extra a b e) [
    | inl old ↦ Grounded-extend at_s (h b old)
    | inr (p, q) ↦ Grounded-next at_s (subst (λ x. F x b) p e)
  ]

-- Walks to `s` need no edge that leaves `s`.
pub Reach-to :
    {E F : ℕ → ℕ → Type 0} {a s : ℕ}
    → ((x y : ℕ) → nat_beq s x ≡ false → F x y → E x y)
    → Reach F a s
    → Reach E a s
Reach-to f here = here
Reach-to {E} {s = s} f (via {a} {b} e r) = elim (Bool-cases (nat_beq s a)) [
  | inl same ↦ subst (λ x. Reach E x s) ((nat_beq_iff s a).0 same) here
  | inr other ↦ via (f a b other e) (Reach-to f r)
]
