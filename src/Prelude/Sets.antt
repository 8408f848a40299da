-- ===== src/Prelude/Sets.antt =====
-- Sets of nodes and of batch ids: lists read through membership. The order of a list stands for
-- the unspecified order in which an unordered set is walked.
use Prim.Native.Nat.{ℕ, ◌≤◌}
use mathlib.Core.Path.{◌≡◌, refl}
use mathlib.Core.Bool.{Bool, false, not, ◌&&◌, ◌||◌}
use mathlib.Core.List.{List, [], ◌∷◌}
use native.Mathlib.Omega.{arith}
use reaction.Prelude.Tests.{nat_beq, if◌then◌else◌, length}

unfoldable pub mem : ℕ → List ℕ → Bool
mem x [] = false
mem x (y ∷ ys) = nat_beq x y || mem x ys

unfoldable pub insert : ℕ → List ℕ → List ℕ
unfolding mem
insert x s = if mem x s then s else x ∷ s

unfoldable pub erase : ℕ → List ℕ → List ℕ
erase x [] = []
erase x (y ∷ ys) = let rest = erase x ys in if nat_beq x y then rest else y ∷ rest

pub mem-insert : (x y : ℕ) (s : List ℕ) → mem x (insert y s) ≡ (nat_beq x y || mem x s)
unfolding insert
mem-insert x y s = ground arith

pub mem-erase : (x y : ℕ) (s : List ℕ) → mem x (erase y s) ≡ (not (nat_beq x y) && mem x s)
unfolding mem erase
mem-erase x y [] = ground arith
mem-erase x y (z ∷ s) = ground (arith, mem-erase x y s)

pub length-erase-le : (x : ℕ) (s : List ℕ) → length (erase x s) ≤ length s
unfolding erase
length-erase-le x [] = omega arith
length-erase-le x (y ∷ s) = ground (arith, length-erase-le x s)

-- A set without members is the empty list.
pub nil_of_not-mem : (s : List ℕ) → ((x : ℕ) → mem x s ≡ false) → s ≡ []
unfolding mem
nil_of_not-mem [] h = refl
nil_of_not-mem (y ∷ s) h = ground (arith, h y)
