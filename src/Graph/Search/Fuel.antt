-- ===== src/Graph/Search/Fuel.antt =====
-- `dfs` ends: each call but the last visits a key of `m_dependentList` for the first time.
use reaction.Prelude.{
  ℕ, zero, suc, ◌+◌, ◌≤◌, ◌<◌, ◌≡◌, ◌≢◌, inl, inr, true, false, some, List, [], ◌∷◌, nat_beq_iff,
  nat_eq, mem, insert, erase, find, mem-insert, if◌then◌else◌, length, arith, Bool-cases,
  Option-cases,
}
use reaction.Graph.State.{Graph, NodeSet, dependents}
use reaction.Graph.Search.{
  Visit, cycle, clear, no_fuel, Holds, Holds-and_then, Holds-map, dfs_neighbors, dfs, dfs_fuel,
}

-- The keys that are not visited yet.
pub unseen : List (ℕ × NodeSet) → NodeSet → ℕ
unseen [] visited = 0
unseen ((k, ds) ∷ m) visited = (if mem k visited then 0 else 1) + unseen m visited

abbrev pub Grew : NodeSet → NodeSet → NodeSet → Type 0
Grew visited visited' stack' = (b : ℕ) → mem b visited ≡ true → mem b visited' ≡ true

-- The search did not run out of fuel, and what was visited stays visited.
abbrev Ended : NodeSet → Visit → Type 0
Ended visited = Holds Unit ⊥ (Grew visited)

pub unseen-le_length : (m : List (ℕ × NodeSet)) (v : NodeSet) → unseen m v ≤ length m
unfolding unseen
unseen-le_length [] v = omega arith
unseen-le_length ((k, ds) ∷ m) v = ground (arith, unseen-le_length m v)

pub unseen_mono :
    (m : List (ℕ × NodeSet)) (v v' s : NodeSet) → Grew v v' s → unseen m v' ≤ unseen m v
unfolding unseen
unseen_mono [] v v' s h = omega arith
unseen_mono ((k, ds) ∷ m) v v' s h = ground (arith, h k, unseen_mono m v v' s h)

pub Grew-insert : (n : ℕ) (v s : NodeSet) → Grew v (insert n v) s
Grew-insert n v s b h = ground (arith, mem-insert b n v)

pub unseen-insert :
    (m : List (ℕ × NodeSet)) (n : ℕ) (v ds : NodeSet)
    → find n m ≡ some ds
    → mem n v ≡ false
    → unseen m (insert n v) < unseen m v
unfolding unseen find
unseen-insert [] n v ds f h = cc
unseen-insert ((k, es) ∷ m) n v ds f h = ground (
  arith,
  nat_beq_iff k n,
  mem-insert k n v,
  unseen-insert m n v ds,
  unseen_mono m v (insert n v) [] (Grew-insert n v []),
)

module _ (g : Graph) where
  abbrev AllEnd : ℕ → (ℕ → NodeSet → NodeSet → Visit) → Type 0
  AllEnd fuel rec = (n : ℕ) (v s : NodeSet) → unseen g.dependent_list v < fuel → Ended v (rec n v s)

  neighbors-Ended :
      (fuel : ℕ) (rec : ℕ → NodeSet → NodeSet → Visit) (ns : List ℕ) (v s : NodeSet)
      → AllEnd fuel rec
      → unseen g.dependent_list v < fuel
      → Ended v (dfs_neighbors g rec ns v s)
  unfolding dfs_neighbors
  neighbors-Ended fuel rec [] v s ends h = λ b seen. seen
  neighbors-Ended fuel rec (n ∷ ns) v s ends h = elim (Bool-cases (g.alive n)) [
    | inl live ↦
        rw (live, dfs_neighbors)
          (Holds-and_then Unit ⊥ (Grew v) (rec n v s) (dfs_neighbors g rec ns) (ends n v s h)
            λ v' s' grew.
              Holds-map Unit ⊥ (dfs_neighbors g rec ns v' s')
                (neighbors-Ended fuel rec ns v' s' ends
                  (omega (arith, unseen_mono g.dependent_list v v' s' grew)))
                λ v'' s'' more b seen. more b (grew b seen))
    | inr dead ↦ rw (dead, dfs_neighbors) (neighbors-Ended fuel rec ns v s ends h)
  ]

  dfs-Ended :
      (fuel n : ℕ) (v s : NodeSet) → unseen g.dependent_list v < fuel → Ended v (dfs g fuel n v s)
  unfolding dfs dfs_neighbors
  dfs-Ended zero n v s h = absurd (omega arith)
  dfs-Ended (suc fuel) n v s h = elim (Bool-cases (mem n s)) [
    | inl on ↦ rw (on, dfs) tt
    | inr off ↦ elim (Bool-cases (mem n v)) [
      | inl seen ↦ rw (off, seen, dfs) (λ b h. h)
      | inr new ↦ elim (Option-cases (find n g.dependent_list)) [
        | inl missing ↦ rw (off, new, missing, dfs) (Grew-insert n v s)
        | inr (ds, there) ↦
            rw (off, new, dfs)
              (Holds-and_then Unit ⊥ (Grew v)
                (dfs_neighbors g (dfs g fuel) (dependents g n) (insert n v) (insert n s))
                (λ v' s'. clear v' (erase n s'))
                (neighbors-Ended fuel (dfs g fuel) (dependents g n) (insert n v) (insert n s)
                  (dfs-Ended fuel) (omega (arith, unseen-insert g.dependent_list n v ds there new)))
                λ v' s' grew b seen. grew b (Grew-insert n v s b seen))
      ]
    ]
  ]

  not_no_fuel : (v : NodeSet) (r : Visit) → Ended v r → r ≢ no_fuel
  not_no_fuel v cycle h e = cc
  not_no_fuel v (clear visited stack) h e = cc
  not_no_fuel v no_fuel h e = h

  -- The recursion of `dfs` ends: from empty sets of visited nodes it never runs out of a fuel of
  -- one more than the number of keys of `m_dependentList`, in any graph and from any node.
  pub dfs_enough_fuel : (n : ℕ) → dfs g (dfs_fuel g) n [] [] ≢ no_fuel
  dfs_enough_fuel n =
      not_no_fuel [] (dfs g (dfs_fuel g) n [] [])
        (dfs-Ended (dfs_fuel g) n [] [] (omega (arith, unseen-le_length g.dependent_list [])))
