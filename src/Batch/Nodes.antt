-- ===== src/Batch/Nodes.antt =====
-- What the constructor of `Batch` (include/reaction/graph/batch.h) collects.
use reaction.Prelude.{
  ℕ, ◌≤◌, ◌<◌, ◌≡◌, refl, sym, ap, ◌∙◌, ◌⊎◌, inl, inr, Bool, true, false, ◌||◌, some, List, [], ◌∷◌,
  nat_beq, nat_beq_iff, mem, arith, Bool-cases, if_true,
}
use mathlib.Core.Path.{subst}
use mathlib.Core.Bool.{true≢false}
use reaction.Exception.{Result, ok}
use reaction.Prelude.Walks.{Walk, one, more}
use reaction.Graph.Caches.{GraphTraversalCache}
use reaction.Graph.State.{Graph, NodeSet}
use reaction.Graph.Invariant.{IsWellFormed}
use reaction.Graph.Collect.{collect_observers}
use reaction.Graph.Collect.Visit.{IsCacheRight, with_depth}
use reaction.Graph.Collect.Depths.{Observes, Above, IsLevelled}
use reaction.Graph.Collect.Whole.{IsRankedGraph, collect_observers_lem}
use reaction.Batch.{collect_values, collected_then}
use reaction.Batch.Sort.{IsSorted}

-- The variables that a function writes.
abbrev pub written : {V : Type 0} → List (ℕ × V) → List ℕ
written [] = []
written ((n, v) ∷ calls) = n ∷ written calls

-- Every observer of a node of the list comes after it.
abbrev pub IsOrderedBy : (ℕ → NodeSet) → List ℕ → Type 0
IsOrderedBy observers [] = Unit
IsOrderedBy observers (n ∷ ns) =
    ((u : ℕ) → mem u (observers n) ≡ true → mem u ns ≡ true) × IsOrderedBy observers ns

-- What the first run of a function leaves: the nodes below the written variables are collected,
-- and the depths rise along their edges.
pub record Collection {V : Type 0} (g : Graph) (calls : List (ℕ × V)) (out : NodeSet)
    (depth : ℕ → ℕ) (call : Result Graph NodeSet) : Type 0 where
  pub out' : NodeSet
  pub depth' : ℕ → ℕ
  pub cache' : GraphTraversalCache
  pub result : call ≡ ok out' (with_depth g depth' cache')
  pub right : IsCacheRight g cache'
  pub levelled : IsLevelled g depth'
  pub above : (n : ℕ) → mem n (written calls) ≡ true → Above g depth' n
  pub keeps_above : (u : ℕ) → Above g depth u → Above g depth' u
  pub sound :
      (u : ℕ)
      → mem u out' ≡ true
      → (mem u out ≡ true) ⊎ ((n : ℕ) × (mem n (written calls) ≡ true) × Walk (Observes g) n u)
  pub complete :
      (u : ℕ)
      → (mem u out ≡ true) ⊎ ((n : ℕ) × (mem n (written calls) ≡ true) × Walk (Observes g) n u)
      → mem u out' ≡ true

module _ (g : Graph) (rank : ℕ → ℕ) (w : IsWellFormed g) (ranked : IsRankedGraph g rank) where
  with_depth-IsWellFormed :
      (depth : ℕ → ℕ) (cache : GraphTraversalCache) → IsWellFormed (with_depth g depth cache)
  with_depth-IsWellFormed depth cache = record {
    symmetric = w.symmetric;
    same_keys = w.same_keys;
    known = w.known;
    owned = w.owned;
    acyclic = w.acyclic;
    cycle_cache_valid = w.cycle_cache_valid;
  }

  with_depth-right :
      (depth : ℕ → ℕ) (cache c : GraphTraversalCache)
      → IsCacheRight g cache
      → IsCacheRight (with_depth g depth c) cache
  with_depth-right depth cache c r = record { valid = r.valid; right = r.right }

  first_call :
      {V : Type 0} (now fuel : ℕ) (n : ℕ) (v : V) (calls : List (ℕ × V)) (out out1 : NodeSet)
      (h h1 : Graph)
      → h.alive n ≡ true
      → collect_observers now fuel n out 1 h ≡ some (out1, h1)
      → collect_values now fuel ((n, v) ∷ calls) out h ≡ collect_values now fuel calls out1 h1
  unfolding collect_values
  first_call now fuel n v calls out out1 h h1 live e =
      if_true live _ _ ∙ ap (collected_then (collect_values now fuel calls)) e ∙ same
    where
      same :
          collected_then (collect_values now fuel calls) (some (out1, h1))
          ≡ collect_values now fuel calls out1 h1
      same = unfold collected_then in refl

  pub collect_values_lem :
      {V : Type 0} (now fuel : ℕ) (calls : List (ℕ × V)) (out : NodeSet) (depth : ℕ → ℕ)
      (cache : GraphTraversalCache)
      → IsCacheRight g cache
      → IsLevelled g depth
      → ((n : ℕ) → mem n (written calls) ≡ true → (g.alive n ≡ true) × (rank n < fuel))
      → Collection g calls out depth (collect_values now fuel calls out (with_depth g depth cache))
  unfolding collect_values mem
  collect_values_lem now fuel [] out depth cache right levelled fits = record {
    out' = out;
    depth' = depth;
    cache' = cache;
    result = refl;
    right = right;
    levelled = levelled;
    above = λ n m. absurd (true≢false (sym m));
    keeps_above = λ u a. a;
    sound = λ u m. inl m;
    complete = λ u. elim [ inl m ↦ m | inr (n, m, _) ↦ absurd (true≢false (sym m)) ];
  }
  collect_values_lem now fuel ((n, v) ∷ calls) out depth cache right levelled fits =
      let (live, enough) = fits n (first n (written calls)) in
      let (out1, h1, e, a) =
        collect_observers_lem now fuel n out (with_depth g depth cache) rank
          (with_depth-IsWellFormed depth cache) (with_depth-right depth cache cache right) levelled
          (record { falls = ranked.falls; small = ranked.small }) enough in
      let right1 : IsCacheRight g a.cache' = record {
        valid = a.right.valid;
        right = a.right.right;
      } in
      let b =
        collect_values_lem now fuel calls out1 a.depth' a.cache' right1 a.levelled
          (λ m i. fits m (later m n (written calls) i)) in
      record {
        out' = b.out';
        depth' = b.depth';
        cache' = b.cache';
        result =
            first_call now fuel n v calls out out1 (with_depth g depth cache) h1 live e
            ∙ ap (collect_values now fuel calls out1) a.same
            ∙ b.result;
        right = b.right;
        levelled = b.levelled;
        above = λ m i. elim (Bool-cases (nat_beq m n)) [
          | inl same ↦
              b.keeps_above m (subst (Above g a.depth') (sym ((nat_beq_iff m n).0 same)) a.above)
          | inr other ↦ b.above m (rest other i)
        ];
        keeps_above = λ u p. b.keeps_above u (a.keeps_above u p);
        sound = λ u m. elim (b.sound u m) [
          | inr (x, i, walk) ↦ inr (x, later x n (written calls) i, walk)
          | inl old ↦ elim ((a.members u).0 old) [
            | inl older ↦ inl older
            | inr walk ↦ inr (n, first n (written calls), walk)
          ]
        ];
        complete = λ u. elim [
          | inl old ↦ b.complete u (inl ((a.members u).1 (inl old)))
          | inr (x, i, walk) ↦ elim (Bool-cases (nat_beq x n)) [
            | inl same ↦ b.complete u (
                inl (
                  (a.members u).1
                    (inr (subst (λ y. Walk (Observes g) y u) ((nat_beq_iff x n).0 same) walk))))
            | inr other ↦ b.complete u (inr (x, rest other i, walk))
          ]
        ];
      }
    where
      first : (x : ℕ) (xs : List ℕ) → (nat_beq x x || mem x xs) ≡ true
      first x xs = rw ((nat_beq_iff x x).1 refl)

      later : (u x : ℕ) (xs : List ℕ) → mem u xs ≡ true → (nat_beq u x || mem u xs) ≡ true
      later u x xs h = ground arith

      rest : {b c : Bool} → b ≡ false → (b || c) ≡ true → c ≡ true
      rest e h = ground arith

  -- Below a node that is above its observers, all nodes are, and none has depth 0.
  pub Walk-Above :
      (depth : ℕ → ℕ) {n u : ℕ}
      → IsLevelled g depth
      → Above g depth n
      → Walk (Observes g) n u
      → Above g depth u
  Walk-Above depth {u} l above (one o) = elim (l u) [
    | inl right ↦ right
    | inr unset ↦ absurd (never (above u o) unset)
  ]
    where
      never : {a b : ℕ} → a < b → b ≡ 0 → ⊥
      never h e = omega arith
  Walk-Above depth l above (more {b = m} o walk) =
      Walk-Above depth l
        (elim (l m) [ inl right ↦ right | inr unset ↦ absurd (never (above m o) unset) ]) walk
    where
      never : {a b : ℕ} → a < b → b ≡ 0 → ⊥
      never h e = omega arith

-- In a sorted list that is closed under observers, each of which is deeper, no observer of a node
-- comes before it.
pub sorted-IsOrdered :
    (g : Graph) (observers : ℕ → NodeSet) (ns : List ℕ)
    → IsSorted g ns
    → ((n u : ℕ)
        → mem n ns ≡ true
        → mem u (observers n) ≡ true
        → (mem u ns ≡ true) × (g.depth n < g.depth u))
    → IsOrderedBy observers ns
unfolding mem
sorted-IsOrdered g observers [] s closed = tt
sorted-IsOrdered g observers (n ∷ ns) s closed = (
  (λ u o.
      let (inside, deeper) = closed n u (first n ns) o in
      elim (Bool-cases (nat_beq u n)) [
        | inl same ↦ absurd (never deeper (ap (λ y. g.depth y) ((nat_beq_iff u n).0 same)))
        | inr other ↦ rest other inside
      ]),
  sorted-IsOrdered g observers ns s.1 λ m u i o.
      let (inside, deeper) = closed m u (later m n ns i) o in
      (
        (elim (Bool-cases (nat_beq u n)) [
          | inl same ↦
              absurd (below deeper (ap (λ y. g.depth y) ((nat_beq_iff u n).0 same)) (s.0 m i))
          | inr other ↦ rest other inside
        ]),
        deeper,
      ),
)
  where
    first : (x : ℕ) (xs : List ℕ) → (nat_beq x x || mem x xs) ≡ true
    first x xs = rw ((nat_beq_iff x x).1 refl)

    later : (u x : ℕ) (xs : List ℕ) → mem u xs ≡ true → (nat_beq u x || mem u xs) ≡ true
    later u x xs h = ground arith

    rest : {b c : Bool} → b ≡ false → (b || c) ≡ true → c ≡ true
    rest e h = ground arith

    never : {a b : ℕ} → a < b → b ≡ a → ⊥
    never h e = omega arith

    below : {a b c : ℕ} → a < b → b ≡ c → c ≤ a → ⊥
    below h e k = omega arith
