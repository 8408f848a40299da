-- ===== src/Graph/Batches/Registry.antt =====
-- What `registerActiveBatch` (observer_graph.h) makes of the registry of active batches.
use reaction.Prelude.{
  ℕ, ◌≡◌, refl, sym, ap, ◌∙◌, inl, inr, Bool, true, false, ◌&&◌, ◌||◌, List, [], ◌∷◌, nat_eq,
  nat_beq, nat_beq_iff, mem, insert, mem-insert, find, put, find-put, get_or, arith, Bool-cases,
  Option-cases, if_true, if_false,
}
use reaction.Graph.State.{Graph, NodeSet}
use reaction.Graph.Batches.{protect, register_active_batch, is_empty, is_node_in_active_batch}

-- The batches that protect a node.
abbrev pub batches : Graph → ℕ → List ℕ
batches g n = get_or (find n g.active_batch_nodes) []

protect_one :
    (b n x : ℕ) (g : Graph) (a : ℕ)
    → mem a (get_or (find n (put x (insert b (batches g x)) g.active_batch_nodes)) [])
      ≡ (mem a (batches g n) || (nat_beq a b && nat_beq n x))
protect_one b n x g a = ground (
  arith,
  find-put x n (insert b (batches g x)) g.active_batch_nodes,
  mem-insert a b (batches g x),
  nat_beq_iff x n,
  nat_beq_iff n x,
)

pub protect_lem :
    (b : ℕ) (ns : NodeSet) (g : Graph) (n a : ℕ)
    → mem a (batches (protect b ns g) n)
      ≡ (mem a (batches g n) || (nat_beq a b && (mem n ns && g.alive n)))
unfolding protect mem
protect_lem b [] g n a = ground arith
protect_lem b (x ∷ ns) g n a = elim (Bool-cases (g.alive x)) [
  | inl live ↦
      let ids = put x (insert b (batches g x)) g.active_batch_nodes in
      let g1 : Graph = record g { active_batch_nodes = ids } in
      ap (λ h. mem a (batches (protect b ns h) n)) (if_true live _ _)
      ∙ protect_lem b ns g1 n a
      ∙ new_node (mem a (batches g n)) (mem a (batches g1 n)) (nat_beq a b) (nat_beq n x) (mem n ns)
          (g.alive n) (protect_one b n x g a)
          (λ same. ap (λ y. g.alive y) ((nat_beq_iff n x).0 same) ∙ live)
  | inr gone ↦
      ap (λ h. mem a (batches (protect b ns h) n)) (if_false gone _ _)
      ∙ protect_lem b ns g n a
      ∙ old_node (mem a (batches g n)) (nat_beq a b) (nat_beq n x) (mem n ns) (g.alive n)
          (λ same. ap (λ y. g.alive y) ((nat_beq_iff n x).0 same) ∙ gone)
]
  where
    new_node :
        (m m1 i s r l : Bool)
        → m1 ≡ (m || (i && s))
        → (s ≡ true → l ≡ true)
        → (m1 || (i && (r && l))) ≡ (m || (i && ((s || r) && l)))
    new_node m m1 i s r l e h = ground arith

    old_node :
        (m i s r l : Bool)
        → (s ≡ true → l ≡ false)
        → (m || (i && (r && l))) ≡ (m || (i && ((s || r) && l)))
    old_node m i s r l h = ground arith

not_empty : (a : ℕ) (ids : List ℕ) → mem a ids ≡ true → is_empty ids ≡ false
unfolding mem is_empty
not_empty a [] h = sym h
not_empty a (x ∷ xs) h = refl

reported : (a n : ℕ) (g : Graph) → mem a (batches g n) ≡ true → is_node_in_active_batch g n ≡ true
unfolding is_node_in_active_batch mem
reported a n g h = elim (Option-cases (find n g.active_batch_nodes)) [
  | inl absent ↦ absurd (nothing (ap (λ o. mem a (get_or o [])) (sym absent) ∙ h))
  | inr (ids, there) ↦ rw (
    there,
    is_node_in_active_batch,
    not_empty a ids (ap (λ o. mem a (get_or o [])) (sym there) ∙ h),
  )
]
  where
    nothing : false ≡ true → ⊥
    nothing e = cc

-- After `registerActiveBatch` of a batch, a node `m` is protected by the batches that protected it
-- before, and by the new one exactly if it is alive and among the batch's nodes; and a living node
-- `n` among them is reported as being in an active batch.
pub register_active_batch_lem :
    (b : ℕ) (ns : NodeSet) (g : Graph) (n m a : ℕ)
    → mem n ns ≡ true
    → g.alive n ≡ true
    → (mem a (batches (register_active_batch b ns g) m)
        ≡ (mem a (batches g m) || (nat_beq a b && (mem m ns && g.alive m))))
      × (is_node_in_active_batch (register_active_batch b ns g) n ≡ true)
unfolding register_active_batch is_node_in_active_batch
register_active_batch_lem b ns g n m a inside live = (
  protect_lem b ns g m a,
  reported b n (protect b ns g) (
      protect_lem b ns g n b
      ∙ rw (inside, live, (nat_beq_iff b b).1 refl, or_true (mem b (batches g n)))),
)
  where
    or_true : (t : Bool) → (t || true) ≡ true
    or_true t = ground arith

protect-alive : (b : ℕ) (ns : NodeSet) (g : Graph) (u : ℕ) → (protect b ns g).alive u ≡ g.alive u
unfolding protect
protect-alive b [] g u = refl
protect-alive b (n ∷ ns) g u = elim (Bool-cases (g.alive n)) [
  | inl live ↦
      ap (λ h. (protect b ns h).alive u) (if_true live _ _)
      ∙ protect-alive b ns
          (record g { active_batch_nodes = put n (insert b (batches g n)) g.active_batch_nodes }) u
  | inr gone ↦ ap (λ h. (protect b ns h).alive u) (if_false gone _ _) ∙ protect-alive b ns g u
]

-- Registering a batch destroys no node.
pub register_active_batch-alive :
    (b : ℕ) (ns : NodeSet) (g : Graph) (u : ℕ) → (register_active_batch b ns g).alive u ≡ g.alive u
unfolding register_active_batch
register_active_batch-alive b ns g u = protect-alive b ns g u
