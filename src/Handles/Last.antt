-- ===== src/Handles/Last.antt =====
-- What the last handle of a node does when it goes (include/reaction/core/react.h,
-- include/reaction/policy/invalidation.h).
use reaction.Prelude.{
  ℕ, ◌+◌, ◌-◌, ◌^◌, ◌%◌, ◌<◌, ◌≡◌, ◌↔◌, ◌⊎◌, refl, sym, ap, ◌∙◌, inl, inr, Bool, true, ◌&&◌, ◌||◌,
  none, some, if◌then◌else◌, nat_beq, nat_beq_iff, nat_eq, mem, arith, Bool-cases, Option-cases,
  if_true, if_false,
}
use mathlib.Core.Path.{subst}
use reaction.Prelude.Walks.{Reach, Grounded-map}
use reaction.Graph.State.{Graph, contains, dependents}
use reaction.Graph.Edges.{Edge}
use reaction.Graph.Invariant.{IsWellFormed}
use reaction.Graph.Close.{close_node}
use reaction.Graph.Close.Whole.{NodeClosed, close_node_lem}
use reaction.Handles.{
  Invalidation, Refs, Handles, at, release_weak_ref, safe_release_ref, destroy_handle, is_pinned,
  destroy_forgotten, close_handle, keep_handle,
}
use reaction.Handles.Counting.{points, count, count-le_length, count-remove_at}
use reaction.Handles.Copies.{IsCounted}

points-same : (n : ℕ) → points n (some n) ≡ 1
unfolding points
points-same n = if_true ((nat_beq_iff n n).1 refl) _ _

module _ {W : Type 0} (inv : Invalidation W) where
  -- What a policy leaves of the nodes, when a handle goes from a node with so many handles.
  abbrev pub after_one : ℕ → ℕ → W → W
  after_one handles n w = if nat_beq handles 1 then inv.handle_invalid n w else w

  release_weak_ref_world :
      (n k : ℕ) (r : Refs W)
      → r.weak_ref_count n ≡ k
      → 0 < k
      → k < 2 ^ 32
      → (release_weak_ref inv n r).world ≡ after_one k n r.world
  unfolding release_weak_ref
  release_weak_ref_world n k r e some_left fits =
      elim (Bool-cases (nat_beq ((r.weak_ref_count n + (2 ^ 32 - 1)) % 2 ^ 32) 0)) [
        | inl last ↦
            ap (λ (s : Refs W). s.world) (if_true last _ _)
            ∙ sym (if_true {b = nat_beq k 1} (ground (arith, last, e, some_left, fits)) _ _)
        | inr more ↦
            ap (λ (s : Refs W). s.world) (if_false more _ _)
            ∙ sym (if_false {b = nat_beq k 1} (ground (arith, more, e, some_left, fits)) _ _)
      ]

  -- For every invalidation policy: when the count of each living node is the number of its
  -- handles, too few for the count to overflow, and the handle at a place is on a living node, then
  -- destroying this handle invalidates the node if it was its only handle, and otherwise leaves all
  -- nodes as they are.
  pub destroy_handle_lem :
      (most i n : ℕ) (h : Handles W)
      → most < 2 ^ 32
      → IsCounted inv most h
      → at i h.handles ≡ some (some n)
      → inv.alive h.refs.world n ≡ true
      → (destroy_handle inv i h).refs.world ≡ after_one (count n h.handles) n h.refs.world
  unfolding destroy_handle safe_release_ref
  destroy_handle_lem most i n h fits k e there =
      step
      ∙ ap (λ (r : Refs W). r.world) (if_true there _ _)
      ∙ release_weak_ref_world n (count n h.handles) h.refs (k.counted n there)
          (omega (arith, count-remove_at n i (some n) h.handles e, points-same n))
          (omega (arith, fits, k.few, count-le_length n h.handles))
    where
      step : (destroy_handle inv i h).refs.world ≡ (safe_release_ref inv (some n) h.refs).world
      step = rw (destroy_handle, e)

module _ (held : ℕ → Bool) where
  destroy_forgotten-dies :
      (g g' : Graph) (m : ℕ) → (destroy_forgotten held g g').alive m ≡ true → g.alive m ≡ true
  unfolding destroy_forgotten
  destroy_forgotten-dies g g' m h = ground (arith, h)

  pub close_handle-dies :
      (n : ℕ) (g : Graph) (m : ℕ) → (close_handle held n g).alive m ≡ true → g.alive m ≡ true
  unfolding close_handle
  close_handle-dies n g m h = elim (Option-cases (close_node (some n) g)) [
    | inl e ↦ sym (alive_eq (none_left e)) ∙ h
    | inr (g', e) ↦ destroy_forgotten-dies g g' m (sym (alive_eq (some_left g' e)) ∙ h)
  ]
    where
      alive_eq : {a b : Graph} → a ≡ b → a.alive m ≡ b.alive m
      alive_eq e = ap (λ (k : Graph). k.alive m) e

      none_left : close_node (some n) g ≡ none → close_handle held n g ≡ g
      none_left e = rw (close_handle, e)

      some_left :
          (g' : Graph)
          → close_node (some n) g ≡ some g'
          → close_handle held n g ≡ destroy_forgotten held g g'
      some_left g' e = rw (close_handle, e)

  -- `CloseHandle`
  abbrev pub close_invalidation : Invalidation Graph
  close_invalidation = record {
    alive = λ g n. g.alive n;
    handle_invalid = close_handle held;
    dies = close_handle-dies;
  }

pub keep_handle-dies :
    (n : ℕ) (g : Graph) (m : ℕ) → (keep_handle n g).alive m ≡ true → g.alive m ≡ true
unfolding keep_handle
keep_handle-dies n g m h = h

-- `KeepHandle`
abbrev pub keep_invalidation : Invalidation Graph
keep_invalidation = record {
  alive = λ g n. g.alive n;
  handle_invalid = keep_handle;
  dies = keep_handle-dies;
}

-- Exactly the node and those that depend on it, directly or through others, leave the graph, which
-- stays well-formed, its nodes keeping their dependencies. A node is alive afterwards exactly if it
-- was, and it is still in the graph, or a name, a batch or a cache has it in a key, or it is held
-- from outside.
pub record IsClosed (held : ℕ → Bool) (node : ℕ) (g g' : Graph) : Type 0 where
  pub valid : IsWellFormed g'
  pub keys : (m : ℕ) → (contains g' m ≡ true) ↔ ((contains g m ≡ true) × (¬ Reach (Edge g) m node))
  pub alive :
      (m : ℕ)
      → (g'.alive m ≡ true) ↔ (
          (g.alive m ≡ true)
          × (((contains g m ≡ true) × (¬ Reach (Edge g) m node))
              ⊎ ((is_pinned g' m ≡ true) ⊎ (held m ≡ true))))
  pub deps : (x y : ℕ) → contains g' x ≡ true → mem y (dependents g' x) ≡ mem y (dependents g x)

module _ (held : ℕ → Bool) (node : ℕ) (g : Graph) (w : IsWellFormed g)
    (there : contains g node ≡ true) where
  module _ (g' : Graph) (c : NodeClosed node g g') where
    destroyed-alive :
        (m : ℕ)
        → ((destroy_forgotten held g g').alive m ≡ true) ↔ (
            (g.alive m ≡ true)
            × (((contains g m ≡ true) × (¬ Reach (Edge g) m node))
                ⊎ ((is_pinned g' m ≡ true) ⊎ (held m ≡ true))))
    unfolding destroy_forgotten
    destroyed-alive m = (
      λ h. (
        destroy_forgotten-dies held g g' m h,
        elim (owner (g.alive m) (contains g' m) (is_pinned g' m) (held m) h) [
          | inl k ↦ inl ((c.keys m).0 k)
          | inr o ↦ inr o
        ],
      ),
      λ (a, o). elim o [
        | inl k ↦ stays (g.alive m) _ _ (held m) a (inl ((c.keys m).1 k))
        | inr o ↦ stays (g.alive m) (contains g' m) _ _ a (inr o)
      ],
    )
      where
        owner :
            (a b d e : Bool) → (a && (b || d || e)) ≡ true → (b ≡ true) ⊎ ((d ≡ true) ⊎ (e ≡ true))
        owner a b d e h = ground arith

        stays :
            (a b d e : Bool)
            → a ≡ true
            → (b ≡ true) ⊎ ((d ≡ true) ⊎ (e ≡ true))
            → (a && (b || d || e)) ≡ true
        stays a b d e h o = ground arith

    destroyed-owned : (m : ℕ) → contains g' m ≡ true → (destroy_forgotten held g g').alive m ≡ true
    destroyed-owned m h = (destroyed-alive m).1 (w.owned m ((c.keys m).0 h).0, inl ((c.keys m).0 h))

    destroyed-IsClosed : IsClosed held node g (destroy_forgotten held g g')
    unfolding destroy_forgotten is_pinned
    destroyed-IsClosed = record {
      valid = record {
        symmetric = c.valid.symmetric;
        same_keys = c.valid.same_keys;
        known = c.valid.known;
        owned = destroyed-owned;
        acyclic = λ n.
            Grounded-map (λ x y e. (e.0, c.valid.owned y (c.valid.known x y e.0)))
              (c.valid.acyclic n);
        cycle_cache_valid = c.valid.cycle_cache_valid;
      };
      keys = c.keys;
      alive = destroyed-alive;
      deps = c.deps;
    }

    close_handle-eq :
        close_node (some node) g ≡ some g' → close_handle held node g ≡ destroy_forgotten held g g'
    unfolding close_handle
    close_handle-eq e = rw (close_handle, e)

  close_handle_lem : IsClosed held node g (close_handle held node g)
  close_handle_lem =
      let (g', e, c) = close_node_lem node g w there in
      subst (IsClosed held node g) (sym (close_handle-eq g' c e)) (destroyed-IsClosed g' c)

-- With `CloseHandle`, a well-formed graph in which the count of each living node is the number of
-- its handles, too few for the count to overflow, and a handle on a node of the graph: destroying
-- this handle leaves the graph as it is if the node has another one. If not, exactly the node and
-- those that depend on it, directly or through others, leave the graph, which stays well-formed; a
-- node is alive afterwards exactly if it was, and it is still in the graph, or a name, a batch or a
-- cache has it in a key, or it is held from outside.
pub last_handle_lem :
    (held : ℕ → Bool) (most i n : ℕ) (h : Handles Graph)
    → most < 2 ^ 32
    → IsCounted (close_invalidation held) most h
    → at i h.handles ≡ some (some n)
    → IsWellFormed h.refs.world
    → contains h.refs.world n ≡ true
    → ((1 < count n h.handles)
        × ((destroy_handle (close_invalidation held) i h).refs.world ≡ h.refs.world))
      ⊎ ((count n h.handles ≡ 1)
          × IsClosed held n h.refs.world (destroy_handle (close_invalidation held) i h).refs.world)
last_handle_lem held most i n h fits k e w there =
    let gone = destroy_handle_lem (close_invalidation held) most i n h fits k e (w.owned n there) in
    elim (Bool-cases (nat_beq (count n h.handles) 1)) [
      | inl last ↦ inr (
        (nat_beq_iff _ _).0 last,
        subst (IsClosed held n h.refs.world) (sym (gone ∙ if_true last _ _))
            (close_handle_lem held n h.refs.world w there),
      )
      | inr more ↦ inl (
        ground (arith, more, count-remove_at n i (some n) h.handles e, points-same n),
        gone ∙ if_false more _ _,
      )
    ]
