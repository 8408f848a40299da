-- ===== src/Source/Ends.antt =====
-- How `setSource` may end (include/reaction/expression/expression.h).
use reaction.Prelude.{
  ℕ, ◌≡◌, ◌≢◌, refl, sym, ap, ◌∙◌, ◌⊎◌, inl, inr, Bool, true, false, ◌&&◌, ◌||◌, some, List, [],
  ◌∷◌, nat_beq, nat_beq_iff, nat_eq, mem, arith, Bool-cases, if_true, if_false,
}
use mathlib.Core.Path.{subst}
use mathlib.Core.Bool.{true≢false}
use reaction.Prelude.Walks.{Reach}
use reaction.Graph.Edges.{Edge}
use reaction.Graph.State.{Graph, update}
use reaction.Graph.Invariant.{IsWellFormed, SameEdges}
use reaction.Graph.Edit.Add.{AgreeOff}
use reaction.Graph.Edit.Loop.{AllAlive}
use reaction.Graph.Edit.Transaction.{Replaced, targets}
use reaction.Source.{
  Thrown, foreign_error, is_std, returned, raised, Fun, Store, Attempt, finished, failed, pointers,
  all_lock,
}

pub targets-pointers : (args : List ℕ) → targets (pointers args) ≡ args
unfolding targets
targets-pointers [] = refl
targets-pointers (n ∷ ns) = ap (λ l. n ∷ l) (targets-pointers ns)

pub all_lock-alive : (g : Graph) (args : List ℕ) → all_lock g args ≡ true → AllAlive g args
unfolding all_lock mem
all_lock-alive g [] h n m = absurd (true≢false (sym m))
all_lock-alive g (k ∷ ks) h n m = elim (Bool-cases (nat_beq n k)) [
  | inl same ↦ subst (λ y. g.alive y ≡ true) (sym ((nat_beq_iff n k).0 same)) (left _ _ h)
  | inr other ↦ all_lock-alive g ks (right _ _ h) n (rest other m)
]
  where
    left : (b c : Bool) → (b && c) ≡ true → b ≡ true
    left b c e = ground arith

    right : (b c : Bool) → (b && c) ≡ true → c ≡ true
    right b c e = ground arith

    rest : {b c : Bool} → b ≡ false → (b || c) ≡ true → c ≡ true
    rest e h = ground arith

-- If not every handle can be locked, the node of one is gone.
pub all_lock-gone :
    (g : Graph) (args : List ℕ)
    → all_lock g args ≡ false
    → (d : ℕ) × (mem d args ≡ true) × (g.alive d ≡ false)
unfolding all_lock mem
all_lock-gone g [] h = absurd (true≢false h)
all_lock-gone g (k ∷ ks) h = elim (Bool-cases (g.alive k)) [
  | inr gone ↦ (k, ground (arith, nat_beq_iff k k), gone)
  | inl there ↦
      let (d, m, gone) = all_lock-gone g ks (ground (arith, h, there)) in
      (d, ground (arith, m), gone)
]

-- The edges, the values and the functions of all nodes are as before.
pub record IsUnchanged {V : Type 0} (st st' : Store V) : Type 0 where
  pub valid : IsWellFormed st'.graph
  pub edges : SameEdges st.graph st'.graph
  pub values : (u : ℕ) → st'.value u ≡ st.value u
  pub funs : (u : ℕ) → st'.fun u ≡ st.fun u

-- The node has exactly the new dependencies, the new function and the value that it gave.
pub record IsReplaced {V : Type 0} (node : ℕ) (args : List ℕ) (f : Fun V) (st st' : Store V)
    : Type 0 where
  pub edges : Replaced node args st.graph st'.graph
  pub fun_here : st'.fun node ≡ some f
  pub funs : (u : ℕ) → u ≢ node → st'.fun u ≡ st.fun u
  pub result : V
  pub evaluated : f st.value ≡ returned result
  pub value_here : st'.value node ≡ some result
  pub values : (u : ℕ) → u ≢ node → st'.value u ≡ st.value u

-- The function threw what is no `std::exception`: the node keeps its value, but has the new
-- function and the new dependencies.
pub record IsHalfDone {V : Type 0} (node : ℕ) (args : List ℕ) (f : Fun V) (st st' : Store V)
    : Type 0 where
  pub edges : Replaced node args st.graph st'.graph
  pub fun_here : st'.fun node ≡ some f
  pub evaluated : f st.value ≡ raised foreign_error
  pub values : (u : ℕ) → st'.value u ≡ st.value u

-- Why `setSource` throws: a node that it is given is gone, or leads to the node itself, or the
-- function threw this.
abbrev pub IsReason : {V : Type 0} → ℕ → Store V → List ℕ → Fun V → Thrown → Type 0
IsReason node st args f r =
    ((d : ℕ) × (mem d args ≡ true) × (st.graph.alive d ≡ false))
    ⊎ (((d : ℕ) × (mem d args ≡ true) × Reach (Edge st.graph) d node) ⊎ (f st.value ≡ raised r))

-- How `setSource` ends.
abbrev pub Ends : {V : Type 0} → ℕ → Store V → List ℕ → Fun V → Attempt V → Type 0
Ends {V} node st args f call =
    ((st' : Store V) × (call ≡ finished st') × IsReplaced node args f st st')
    ⊎ (((r : Thrown) × (st' : Store V) × (call ≡ failed r st')
          × (is_std r ≡ true)
          × IsReason node st args f r
          × IsUnchanged st st')
        ⊎ ((st' : Store V) × (call ≡ failed foreign_error st') × IsHalfDone node args f st st'))

-- Writing back what is there.
pub update_back {ℓ} :
    {A : Type ℓ} (f h : ℕ → A) (n u : ℕ) (a : A)
    → a ≡ h n
    → (u ≢ n → f u ≡ h u)
    → update f n a u ≡ h u
unfolding update
update_back f h n u a e away = elim (Bool-cases (nat_beq n u)) [
  | inl same ↦ if_true same _ _ ∙ e ∙ ap h ((nat_beq_iff n u).0 same)
  | inr other ↦
      if_false other _ _ ∙ away (λ e'. true≢false (sym ((nat_beq_iff n u).1 (sym e')) ∙ other))
]

pub Replaced-off : (node : ℕ) (ds : List ℕ) (g h : Graph) → Replaced node ds g h → AgreeOff node g h
Replaced-off node ds g h r = record {
  off = λ x y o. r.deps x y ∙ if_false o _ _;
  alive = r.keeps.alive;
}
