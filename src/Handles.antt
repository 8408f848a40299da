-- ===== src/Handles.antt =====
-- `React` (include/reaction/core/react.h): the handles on a node. The node counts its handles, and
-- when the last one goes its invalidation policy (include/reaction/policy/invalidation.h) acts.
pub mod Counting
pub mod Script
pub mod Copies
pub mod Last
pub mod LastValue
pub mod Tests
use reaction.Prelude.{
  ℕ, zero, suc, ◌+◌, ◌-◌, ◌^◌, ◌%◌, ◌≡◌, Bool, true, false, not, ◌&&◌, ◌||◌, has, pair_eq, Option,
  none, some, List, [], ◌∷◌, if◌then◌else◌, nat_beq, nat_eq,
}
use reaction.Graph.State.{Graph, NodePtr, update, contains}
use reaction.Cache.{CacheEntry}
use reaction.Graph.Close.{close_node}

-- What the handles ask of the nodes: which can be locked, and what `handleInvalid` does to them,
-- which brings no node to life.
pub record Invalidation (W : Type 0) : Type 0 where
  pub alive : W → ℕ → Bool
  pub handle_invalid : ℕ → W → W
  pub dies : (n : ℕ) (w : W) (m : ℕ) → alive (handle_invalid n w) m ≡ true → alive w m ≡ true

-- The nodes, and the member `m_weakRefCount` of each.
pub record Refs (W : Type 0) : Type 0 where
  pub world : W
  pub weak_ref_count : ℕ → ℕ

-- A `React` is its weak pointer. An operation names a handle by its place among those there are.
pub record Handles (W : Type 0) : Type 0 where
  pub handles : List NodePtr
  pub refs : Refs W

unfoldable pub at : ℕ → List NodePtr → Option NodePtr
at i [] = none
at zero (p ∷ ps) = some p
at (suc i) (p ∷ ps) = at i ps

unfoldable pub set_at : ℕ → NodePtr → List NodePtr → List NodePtr
set_at i q [] = []
set_at zero q (p ∷ ps) = q ∷ ps
set_at (suc i) q (p ∷ ps) = p ∷ set_at i q ps

unfoldable pub remove_at : ℕ → List NodePtr → List NodePtr
remove_at i [] = []
remove_at zero (p ∷ ps) = ps
remove_at (suc i) (p ∷ ps) = p ∷ remove_at i ps

module _ {W : Type 0} (inv : Invalidation W) where
  -- `addWeakRef`; the count is an `int`.
  unfoldable pub add_weak_ref : ℕ → Refs W → Refs W
  unfolding update
  add_weak_ref n r = record r {
    weak_ref_count = update r.weak_ref_count n ((r.weak_ref_count n + 1) % 2 ^ 32);
  }

  -- `releaseWeakRef`
  unfoldable pub release_weak_ref : ℕ → Refs W → Refs W
  unfolding update
  release_weak_ref n r =
      let left = (r.weak_ref_count n + (2 ^ 32 - 1)) % 2 ^ 32 in
      let counts = update r.weak_ref_count n left in
      if nat_beq left 0
      then record { world = inv.handle_invalid n r.world; weak_ref_count = counts }
      else record r { weak_ref_count = counts }

  unfoldable pub safe_add_ref : NodePtr → Refs W → Refs W
  unfolding add_weak_ref
  safe_add_ref none r = r
  safe_add_ref (some n) r = if inv.alive r.world n then add_weak_ref n r else r

  unfoldable pub safe_release_ref : NodePtr → Refs W → Refs W
  unfolding release_weak_ref
  safe_release_ref none r = r
  safe_release_ref (some n) r = if inv.alive r.world n then release_weak_ref n r else r

  -- The constructor from a shared pointer.
  unfoldable pub construct : NodePtr → Handles W → Handles W
  unfolding safe_add_ref
  construct p h = record { handles = p ∷ h.handles; refs = safe_add_ref p h.refs }

  -- The copy constructor.
  unfoldable pub copy_construct : ℕ → Handles W → Handles W
  unfolding at construct
  copy_construct i h = elim (at i h.handles) [ none ↦ h | some p ↦ construct p h ]

  -- The move constructor.
  unfoldable pub move_construct : ℕ → Handles W → Handles W
  unfolding at set_at
  move_construct i h = elim (at i h.handles) [
    | none ↦ h
    | some p ↦ record h { handles = p ∷ set_at i none h.handles }
  ]

  -- Copy assignment of handle `j` to handle `i`.
  unfoldable pub copy_assign : ℕ → ℕ → Handles W → Handles W
  unfolding at set_at safe_add_ref safe_release_ref
  copy_assign i j h = elim (nat_beq i j) [
    | true ↦ h
    | false ↦ elim (at i h.handles) [
      | none ↦ h
      | some p ↦ elim (at j h.handles) [
        | none ↦ h
        | some q ↦ record {
          handles = set_at i q h.handles;
          refs = safe_add_ref q (safe_release_ref p h.refs);
        }
      ]
    ]
  ]

  -- Move assignment of handle `j` to handle `i`.
  unfoldable pub move_assign : ℕ → ℕ → Handles W → Handles W
  unfolding at set_at safe_release_ref
  move_assign i j h = elim (nat_beq i j) [
    | true ↦ h
    | false ↦ elim (at i h.handles) [
      | none ↦ h
      | some p ↦ elim (at j h.handles) [
        | none ↦ h
        | some q ↦ record {
          handles = set_at j none (set_at i q h.handles);
          refs = safe_release_ref p h.refs;
        }
      ]
    ]
  ]

  -- The destructor.
  unfoldable pub destroy_handle : ℕ → Handles W → Handles W
  unfolding at remove_at safe_release_ref
  destroy_handle i h = elim (at i h.handles) [
    | none ↦ h
    | some p ↦ record { handles = remove_at i h.handles; refs = safe_release_ref p h.refs }
  ]

-- What a program does to its handles.
pub data Operation : Type 0 where
  constructs : NodePtr → Operation
  copies moves destroys : ℕ → Operation
  copy_assigns move_assigns : ℕ → ℕ → Operation

module _ {W : Type 0} (inv : Invalidation W) where
  unfoldable pub operate : Operation → Handles W → Handles W
  unfolding construct copy_construct move_construct copy_assign move_assign destroy_handle
  operate (constructs p) h = construct inv p h
  operate (copies i) h = copy_construct inv i h
  operate (moves i) h = move_construct inv i h
  operate (destroys i) h = destroy_handle inv i h
  operate (copy_assigns i j) h = copy_assign inv i j h
  operate (move_assigns i j) h = move_assign inv i j h

  unfoldable pub operate_all : List Operation → Handles W → Handles W
  unfolding operate
  operate_all [] h = h
  operate_all (o ∷ os) h = operate_all os (operate o h)

unfoldable pub is_in_pair : ℕ → List ((ℕ × ℕ) × CacheEntry Bool) → Bool
is_in_pair n [] = false
is_in_pair n (((source, target), entry) ∷ rest) =
    nat_beq n source || nat_beq n target || is_in_pair n rest

-- Whether a name, an active batch or a cache of the graph has the node's shared pointer in a key:
-- `closeNode` leaves the batches and the caches as they are.
unfoldable pub is_pinned : Graph → ℕ → Bool
unfolding is_in_pair
is_pinned g n =
    has n g.name_list
    || has n g.active_batch_nodes
    || has n g.graph_cache.entries
    || is_in_pair n g.cycle_cache.entries
    || has n g.metrics_cache.entries

module _ (held : ℕ → Bool) where
  -- A node goes with its last shared pointer. The keys of the graph's maps are such pointers;
  -- `held` tells which nodes have one outside of the graph, as in a function that captured its
  -- arguments.
  unfoldable pub destroy_forgotten : Graph → Graph → Graph
  unfolding is_pinned
  destroy_forgotten before g = record g {
    alive = λ n. before.alive n && (contains g n || is_pinned g n || held n);
  }

  -- `CloseHandle::handleInvalidImpl` on a node without fields: `ReactImpl::close`.
  unfoldable pub close_handle : ℕ → Graph → Graph
  unfolding close_node destroy_forgotten
  close_handle n g = elim (close_node (some n) g) [ none ↦ g | some g' ↦ destroy_forgotten g g' ]

-- `KeepHandle::handleInvalidImpl`
unfoldable pub keep_handle : ℕ → Graph → Graph
keep_handle n g = g
