-- ===== src/Graph/Search/Correct.antt =====
-- `dfs` finds a cycle exactly if there is one: what it has left is grounded, and the nodes on the
-- recursion stack lead to the node at hand.
use reaction.Prelude.{
  ℕ, zero, suc, ◌≡◌, refl, ◌∙◌, inl, inr, true, false, List, [], ◌∷◌, nat_beq, nat_beq_iff, mem,
  insert, erase, mem-insert, mem-erase, arith, Bool-cases,
}
use reaction.Prelude.Walks.{Walk, one, Grounded, grounded, Walk-trans}
use reaction.Graph.State.{Graph, NodeSet, dependents}
use reaction.Graph.Edges.{Edge}
use reaction.Graph.Search.{Visit, clear, Holds, Holds-and_then, Holds-map, dfs_neighbors, dfs}

module _ (g : Graph) where
  abbrev pub HasCycle : Type 0
  HasCycle = (c : ℕ) × Walk (Edge g) c c

  -- Visited nodes off the stack are done with.
  abbrev pub Black : NodeSet → NodeSet → Type 0
  Black visited stack = (b : ℕ) → mem b visited ≡ true → mem b stack ≡ false → Grounded (Edge g) b

  pub record After (P : Type 0) (stack visited' stack' : NodeSet) : Type 0 where
    pub same_stack : (b : ℕ) → mem b stack' ≡ mem b stack
    pub black : Black visited' stack'
    pub safe : P

  abbrev pub Searched : Type 0 → NodeSet → Visit → Type 0
  Searched P stack = Holds HasCycle Unit (After P stack)

  abbrev pub Leads : NodeSet → ℕ → Type 0
  Leads stack n = (x : ℕ) → mem x stack ≡ true → Walk (Edge g) x n

  abbrev Searches : (ℕ → NodeSet → NodeSet → Visit) → Type 0
  Searches rec =
      (n : ℕ) (visited stack : NodeSet)
      → Black visited stack
      → Leads stack n
      → Searched (Grounded (Edge g) n) stack (rec n visited stack)

  abbrev AllGrounded : List ℕ → Type 0
  AllGrounded ns = (m : ℕ) → mem m ns ≡ true → g.alive m ≡ true → Grounded (Edge g) m

  live_and_dead : {n : ℕ} → g.alive n ≡ true → g.alive n ≡ false → ⊥
  live_and_dead live dead = cc

  AllGrounded-cons :
      (n : ℕ) (ns : List ℕ)
      → (g.alive n ≡ true → Grounded (Edge g) n)
      → AllGrounded ns
      → AllGrounded (n ∷ ns)
  unfolding mem
  AllGrounded-cons n ns h hs m inside live = elim (Bool-cases (nat_beq m n)) [
    | inl e ↦ let m≡n : m ≡ n = (nat_beq_iff m n).0 e in rw m≡n (h (rw m≡n at live))
    | inr ne ↦ hs m (ground arith) live
  ]

  neighbors-Searched :
      (rec : ℕ → NodeSet → NodeSet → Visit) (ns : List ℕ) (visited stack : NodeSet)
      → Searches rec
      → Black visited stack
      → ((m : ℕ) → mem m ns ≡ true → g.alive m ≡ true → Leads stack m)
      → Searched (AllGrounded ns) stack (dfs_neighbors g rec ns visited stack)
  unfolding dfs_neighbors mem
  neighbors-Searched rec [] visited stack r black leads = record {
    same_stack = λ b. refl;
    black = black;
    safe = λ m h. cc;
  }
  neighbors-Searched rec (n ∷ ns) visited stack r black leads =
      let tail_leads : (m : ℕ) → mem m ns ≡ true → g.alive m ≡ true → Leads stack m =
        λ m h. leads m (ground arith) in
      elim (Bool-cases (g.alive n)) [
        | inl live ↦
            rw (live, dfs_neighbors)
              (Holds-and_then HasCycle Unit (After (AllGrounded (n ∷ ns)) stack)
                (rec n visited stack) (dfs_neighbors g rec ns)
                (r n visited stack black (leads n (ground arith) live))
                λ v' s' a.
                  Holds-map HasCycle Unit (dfs_neighbors g rec ns v' s')
                    (neighbors-Searched rec ns v' s' r a.black
                      (λ m h l x on. tail_leads m h l x (rw (← a.same_stack x) on)))
                    λ v'' s'' b. record {
                      same_stack = λ x. b.same_stack x ∙ a.same_stack x;
                      black = b.black;
                      safe = AllGrounded-cons n ns (λ _. a.safe) b.safe;
                    })
        | inr dead ↦
            rw (dead, dfs_neighbors)
              (Holds-map HasCycle Unit (dfs_neighbors g rec ns visited stack)
                (neighbors-Searched rec ns visited stack r black tail_leads)
                λ v' s' a. record {
                  same_stack = a.same_stack;
                  black = a.black;
                  safe = AllGrounded-cons n ns (λ live. absurd (live_and_dead live dead)) a.safe;
                })
      ]

  popped :
      (n : ℕ) (visited stack v' s' : NodeSet)
      → mem n stack ≡ false
      → After (AllGrounded (dependents g n)) (insert n stack) v' s'
      → After (Grounded (Edge g) n) stack v' (erase n s')
  popped n visited stack v' s' off a =
      let safe : Grounded (Edge g) n = grounded n (λ m e. a.safe m e.0 e.1) in
      record {
        same_stack = λ b.
            ground (arith, mem-erase b n s', a.same_stack b, mem-insert b n stack, nat_beq_iff b n);
        black = λ b seen gone. elim (Bool-cases (nat_beq b n)) [
          | inl same ↦ let b≡n : b ≡ n = (nat_beq_iff b n).0 same in rw b≡n safe
          | inr other ↦ a.black b seen (ground (arith, mem-erase b n s'))
        ];
        safe = safe;
      }

  Black-insert :
      (n : ℕ) (visited stack : NodeSet)
      → Black visited stack
      → Black (insert n visited) (insert n stack)
  Black-insert n visited stack black b seen off =
      black b (ground (arith, mem-insert b n visited, mem-insert b n stack))
        (ground (arith, mem-insert b n stack))

  Leads-insert : (n m : ℕ) (stack : NodeSet) → Edge g n m → Leads stack n → Leads (insert n stack) m
  Leads-insert n m stack e leads x on = elim (Bool-cases (nat_beq x n)) [
    | inl same ↦ let x≡n : x ≡ n = (nat_beq_iff x n).0 same in rw x≡n (one e)
    | inr other ↦ Walk-trans (leads x (ground (arith, mem-insert x n stack))) e
  ]

  -- From a state in which the nodes done with are grounded and the stack leads to `n`, `dfs`
  -- answers with a cycle, or leaves the stack as it was and `n` and all nodes done with grounded.
  pub dfs_lem :
      (fuel n : ℕ) (visited stack : NodeSet)
      → Black visited stack
      → Leads stack n
      → Searched (Grounded (Edge g) n) stack (dfs g fuel n visited stack)
  unfolding dfs
  dfs_lem zero n visited stack black leads = tt
  dfs_lem (suc fuel) n visited stack black leads = elim (Bool-cases (mem n stack)) [
    | inl on ↦ rw (on, dfs) (n, leads n on)
    | inr off ↦ elim (Bool-cases (mem n visited)) [
      | inl seen ↦
          rw (off, seen, dfs)
            (record { same_stack = λ b. refl; black = black; safe = black n seen off })
      | inr new ↦
          rw (off, new, dfs)
            (Holds-and_then HasCycle Unit (After (Grounded (Edge g) n) stack)
              (dfs_neighbors g (dfs g fuel) (dependents g n) (insert n visited) (insert n stack))
              (λ visited' stack'. clear visited' (erase n stack'))
              (neighbors-Searched (dfs g fuel) (dependents g n) (insert n visited) (insert n stack)
                (dfs_lem fuel) (Black-insert n visited stack black)
                (λ m inside live. Leads-insert n m stack (inside, live) leads))
              λ v' s' a. popped n visited stack v' s' off a)
    ]
  ]
