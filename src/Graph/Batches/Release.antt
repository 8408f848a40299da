-- ===== src/Graph/Batches/Release.antt =====
-- `unregisterActiveBatch` (observer_graph.h) takes back what `registerActiveBatch` did.
use reaction.Prelude.{
  ℕ, ◌≡◌, refl, sym, ap, ◌∙◌, inl, inr, Bool, true, false, not, ◌&&◌, ◌||◌, none, List, [], ◌∷◌,
  nat_eq, nat_beq, nat_beq_iff, mem, insert, erase, mem-erase, find, put, find-put, get_or,
  if◌then◌else◌, arith, Bool-cases, Option-cases, if_true, if_false,
}
use mathlib.Core.Path.{subst}
use reaction.Graph.State.{Graph, NodeSet}
use reaction.Graph.Batches.{
  protect, register_active_batch, unprotect, unregister_active_batch, is_empty,
  is_node_in_active_batch,
}
use reaction.Graph.Batches.Registry.{batches, protect_lem}

-- Each node has one entry.
abbrev pub OneEach : List (ℕ × List ℕ) → Type 0
OneEach [] = Unit {0}
OneEach ((n, ids) ∷ m) = (find n m ≡ none) × OneEach m

OneEach-put : (n : ℕ) (ids : List ℕ) (m : List (ℕ × List ℕ)) → OneEach m → OneEach (put n ids m)
unfolding find put
OneEach-put n ids [] d = (refl, tt)
OneEach-put n ids ((j, w) ∷ m) d =
    ground (arith, find-put n j ids m, nat_beq_iff j n, nat_beq_iff n j, OneEach-put n ids m)

protect-OneEach :
    (b : ℕ) (ns : NodeSet) (g : Graph)
    → OneEach g.active_batch_nodes
    → OneEach (protect b ns g).active_batch_nodes
unfolding protect
protect-OneEach b [] g d = d
protect-OneEach b (n ∷ ns) g d = elim (Bool-cases (g.alive n)) [
  | inl live ↦
      subst (λ h. OneEach (protect b ns h).active_batch_nodes) (sym (if_true live _ _))
        (protect-OneEach b ns
          (record g { active_batch_nodes = put n (insert b (batches g n)) g.active_batch_nodes })
          (OneEach-put n (insert b (batches g n)) g.active_batch_nodes d))
  | inr gone ↦
      subst (λ h. OneEach (protect b ns h).active_batch_nodes) (sym (if_false gone _ _))
        (protect-OneEach b ns g d)
]

still_none : (b n : ℕ) (m : List (ℕ × List ℕ)) → find n m ≡ none → find n (unprotect b m) ≡ none
unfolding find unprotect
still_none b n [] e = refl
still_none b n ((j, ids) ∷ m) e = ground (arith, e, still_none b n m)

nothing_left : (ids : List ℕ) (a : ℕ) → is_empty ids ≡ true → mem a ids ≡ false
unfolding is_empty mem
nothing_left [] a e = refl
nothing_left (x ∷ ids) a e = ground (arith, e)

unprotect_lem :
    (b n a : ℕ) (m : List (ℕ × List ℕ))
    → OneEach m
    → mem a (get_or (find n (unprotect b m)) [])
      ≡ (not (nat_beq a b) && mem a (get_or (find n m) []))
unfolding find unprotect mem
unprotect_lem b n a [] d = ground arith
unprotect_lem b n a ((j, ids) ∷ m) d =
    ground (arith, unprotect_lem b n a m d.1, mem-erase a b ids, nothing_left (erase b ids) a, once)
  where
    once : nat_beq j n ≡ true → find n (unprotect b m) ≡ none
    once same =
        ap (λ k. find k (unprotect b m)) (sym ((nat_beq_iff j n).0 same)) ∙ still_none b j m d.0

is_node_in_active_batch-batches :
    (g : Graph) (n : ℕ) → is_node_in_active_batch g n ≡ not (is_empty (batches g n))
unfolding is_empty is_node_in_active_batch
is_node_in_active_batch-batches g n = elim (Option-cases (find n g.active_batch_nodes)) [
  | inl e ↦ rw (is_node_in_active_batch, e)
  | inr (ids, e) ↦ rw (is_node_in_active_batch, e) (either (is_empty ids))
]
  where
    either : (b : Bool) → (if b then false else true) ≡ not b
    either b = ground arith

same_members : (s t : List ℕ) → ((a : ℕ) → mem a s ≡ mem a t) → is_empty s ≡ is_empty t
unfolding is_empty mem
same_members [] [] h = refl
same_members [] (y ∷ t) h = ground (arith, h y, nat_beq_iff y y)
same_members (x ∷ s) [] h = ground (arith, h x, nat_beq_iff x x)
same_members (x ∷ s) (y ∷ t) h = refl

-- When each node has one entry in the registry and the batch is nowhere in it: after registering
-- the batch with any nodes, and unregistering it, each node is protected by the same batches as
-- before, and is reported as being in an active batch exactly if it was before.
pub unregister_active_batch_lem :
    (b : ℕ) (ns : NodeSet) (g : Graph) (n a : ℕ)
    → OneEach g.active_batch_nodes
    → ((m : ℕ) → mem b (batches g m) ≡ false)
    → (mem a (batches (unregister_active_batch b (register_active_batch b ns g)) n)
        ≡ mem a (batches g n))
      × (is_node_in_active_batch (unregister_active_batch b (register_active_batch b ns g)) n
          ≡ is_node_in_active_batch g n)
unfolding register_active_batch unregister_active_batch
unregister_active_batch_lem b ns g n a once new = (
  back a,
  is_node_in_active_batch-batches (unregister_active_batch b (register_active_batch b ns g)) n
      ∙ ap not (same_members _ _ back)
      ∙ sym (is_node_in_active_batch-batches g n),
)
  where
    cancels : (i m r : Bool) → (i ≡ true → m ≡ false) → (not i && (m || (i && r))) ≡ m
    cancels i m r h = ground arith

    back :
        (c : ℕ)
        → mem c (batches (unregister_active_batch b (register_active_batch b ns g)) n)
          ≡ mem c (batches g n)
    back c =
        unprotect_lem b n c (protect b ns g).active_batch_nodes (protect-OneEach b ns g once)
        ∙ ap (λ t. not (nat_beq c b) && t) (protect_lem b ns g n c)
        ∙ cancels (nat_beq c b) (mem c (batches g n)) (mem n ns && g.alive n)
            (λ same. ap (λ k. mem k (batches g n)) ((nat_beq_iff c b).0 same) ∙ new n)

unprotect-OneEach : (b : ℕ) (m : List (ℕ × List ℕ)) → OneEach m → OneEach (unprotect b m)
unfolding unprotect
unprotect-OneEach b [] d = tt
unprotect-OneEach b ((n, ids) ∷ m) d = elim (Bool-cases (is_empty (erase b ids))) [
  | inl gone ↦ subst OneEach (sym (if_true gone _ _)) (unprotect-OneEach b m d.1)
  | inr left ↦
      subst OneEach (sym (if_false left _ _)) (still_none b n m d.0, unprotect-OneEach b m d.1)
]

-- A batch that comes and goes leaves one entry for each node.
pub unregister-OneEach :
    (b : ℕ) (ns : NodeSet) (g : Graph)
    → OneEach g.active_batch_nodes
    → OneEach (unregister_active_batch b (register_active_batch b ns g)).active_batch_nodes
unfolding register_active_batch unregister_active_batch
unregister-OneEach b ns g d =
    unprotect-OneEach b (protect b ns g).active_batch_nodes (protect-OneEach b ns g d)

-- The registry of the graph, and nothing else, is another one.
abbrev pub with_registry : Graph → List (ℕ × List ℕ) → List ℕ → Graph
with_registry g nodes ids = record g { active_batch_nodes = nodes; active_batch_ids = ids }

protect-same :
    (b : ℕ) (ns : NodeSet) (g : Graph)
    → protect b ns g ≡ with_registry g (protect b ns g).active_batch_nodes g.active_batch_ids
unfolding protect
protect-same b [] g = refl
protect-same b (n ∷ ns) g = elim (Bool-cases (g.alive n)) [
  | inl live ↦
      subst
        (λ h.
          protect b ns h ≡ with_registry g (protect b ns h).active_batch_nodes g.active_batch_ids)
        (sym (if_true live _ _))
        (protect-same b ns
          (record g { active_batch_nodes = put n (insert b (batches g n)) g.active_batch_nodes }))
  | inr gone ↦
      subst
        (λ h.
          protect b ns h ≡ with_registry g (protect b ns h).active_batch_nodes g.active_batch_ids)
        (sym (if_false gone _ _)) (protect-same b ns g)
]

-- A batch that comes and goes leaves the rest of the graph.
pub unregister-same :
    (b : ℕ) (ns : NodeSet) (g : Graph)
    → (nodes : List (ℕ × List ℕ)) × (ids : List ℕ) × (unregister_active_batch b
          (register_active_batch b ns g)
        ≡ with_registry g nodes ids)
unfolding register_active_batch unregister_active_batch
unregister-same b ns g = (
  _,
  _,
  ap
      (λ (h : Graph).
        with_registry h (unprotect b h.active_batch_nodes) (erase b (insert b h.active_batch_ids)))
      (protect-same b ns g),
)
