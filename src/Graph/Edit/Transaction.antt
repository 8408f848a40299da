-- ===== src/Graph/Edit/Transaction.antt =====
-- `updateObserversTransactional` of observer_graph.h: all of the new dependencies, or the old.
use reaction.Prelude.{
  ℕ, ◌≡◌, refl, ◌∙◌, ◌⊎◌, inl, inr, true, none, some, List, [], ◌∷◌, nat_eq, nat_beq, nat_beq_iff,
  mem, if◌then◌else◌, arith,
}
use reaction.Prelude.Walks.{Reach, Walk-of_edge, Grounded-not-Walk}
use reaction.Exception.{ok, throw, ReactionException}
use reaction.Graph.State.{Graph, NodePtr, NodeSet, ◌>>=◌, ◌>>◌, dependents}
use reaction.Graph.Edges.{Edge}
use reaction.Graph.Invariant.{IsWellFormed, Keeps, Keeps-trans, SameEdges}
use reaction.Graph.HasCycle.{SoundFor}
use reaction.Graph.Edit.{
  for_each, add_observer_internal, add_argument, restore_one, restore_node_state,
  reset_node_internal, roll_back, update_observers_transactional,
}
use reaction.Graph.Edit.Add.{AgreeOff, AgreeOff-trans, Reach-off, refusal, get_name-Keeps}
use reaction.Graph.Edit.Loop.{AllAlive, for_each_lem}
use reaction.Graph.Edit.Reset.{WasReset, WasReset-off, WasReset-sound, reset_node_internal_lem}

-- The arguments that are not null.
unfoldable pub targets : List NodePtr → List ℕ
targets [] = []
targets (none ∷ ps) = targets ps
targets (some t ∷ ps) = t ∷ targets ps

-- The node depends on exactly `ds`, and no other edge changed.
pub record Replaced (node : ℕ) (ds : List ℕ) (g g' : Graph) : Type 0 where
  pub valid : IsWellFormed g'
  pub sound : SoundFor node g'
  pub keeps : Keeps g g'
  pub allowed : (t : ℕ) → mem t ds ≡ true → ¬ Reach (Edge g) t node
  pub deps :
      (x y : ℕ)
      → mem y (dependents g' x) ≡ (if nat_beq node x then mem y ds else mem y (dependents g x))

-- Every edge is as before; some new dependency would have closed a cycle.
pub record RolledBack (node : ℕ) (ds : List ℕ) (g : Graph) (e : ReactionException) (g' : Graph)
    : Type 0 where
  pub valid : IsWellFormed g'
  pub sound : SoundFor node g'
  pub same : SameEdges g g'
  pub culprit : ℕ
  pub listed : mem culprit ds ≡ true
  pub closes : Reach (Edge g) culprit node
  pub exception : e ≡ refusal g node culprit

add_arguments :
    (now node : ℕ) (args : List NodePtr) (g : Graph)
    → for_each (add_argument now node) args g
      ≡ for_each (add_observer_internal now node) (targets args) g
unfolding for_each add_argument targets
add_arguments now node [] g = refl
add_arguments now node (none ∷ ps) g = add_arguments now node ps g
add_arguments now node (some t ∷ ps) g =
    λ i. (add_observer_internal now node t >> λ h. add_arguments now node ps h i) g

module _ (now node : ℕ) (g : Graph) (w : IsWellFormed g) (sound : SoundFor node g)
    (live : g.alive node ≡ true) where
  saved : NodeSet
  saved = dependents g node

  module _ (h : Graph) (wh : IsWellFormed h) (sh : SoundFor node h) (off : AgreeOff node g h)
      (keeps : Keeps g h) where
    abbrev again : Graph
    again = reset_node_internal node h

    again_reset : WasReset node h again
    again_reset = reset_node_internal_lem node h wh

    again_off : AgreeOff node g again
    again_off = AgreeOff-trans off (WasReset-off node h again again_reset)

    saved_alive : AllAlive again (dependents g node)
    saved_alive t l = again_off.alive t ∙ w.owned t (w.known node t l)

    -- No saved dependency leads back to the node.
    saved_safe : (t : ℕ) → mem t (dependents g node) ≡ true → ¬ Reach (Edge again) t node
    saved_safe t l r =
        Grounded-not-Walk (w.acyclic node)
          (Walk-of_edge (l, w.owned t (w.known node t l)) ((Reach-off g again t again_off).1 r))

    -- The function that restores a node's dependencies, on a graph that differs from the saved
    -- one in the edges that leave the node only: it returns, with all edges as they were saved.
    pub restore_lem :
        (k : Graph) × (restore_node_state now node (dependents g node) h ≡ ok tt k)
        × IsWellFormed k
        × SoundFor node k
        × SameEdges g k
    unfolding restore_node_state
    restore_lem =
        elim (for_each_lem now node (restore_one now node) (λ t k lt. unfold restore_one in rw lt)
          (dependents g node) again again_reset.valid (WasReset-sound node h again again_reset sh)
          (again_off.alive node ∙ live) saved_alive) [
            | inl (k, e, all) ↦ (
              k,
              e,
              all.valid,
              all.sound,
              record {
                keeps = Keeps-trans keeps (Keeps-trans again_reset.keeps all.keeps);
                deps = λ x y.
                    ground
                      (arith, all.deps x y, again_reset.deps x y, off.off x y, nat_beq_iff node x);
              },
            )
            | inr (e, k, _, stop) ↦ absurd (saved_safe stop.culprit stop.listed stop.closes)
          ]

  abbrev cleared : Graph
  cleared = reset_node_internal node g

  cleared_reset : WasReset node g cleared
  cleared_reset = reset_node_internal_lem node g w

  cleared_off : AgreeOff node g cleared
  cleared_off = WasReset-off node g cleared cleared_reset

  -- `updateObserversTransactional` on a well-formed graph in which the cached answers for the node
  -- are right, the node and all arguments that are not null being alive. Either it returns, and
  -- the node depends on exactly those arguments, none of which led to the node; or it throws the
  -- exception for an argument that leads to the node, and every edge is as before the call.
  -- Both times all other edges and members are kept and the graph is well-formed.
  pub update_observers_transactional_lem :
      (args : List NodePtr)
      → AllAlive g (targets args)
      → ((g' : Graph) × (update_observers_transactional now (some node) args g ≡ ok tt g')
          × Replaced node (targets args) g g')
        ⊎ ((e : ReactionException) × (g' : Graph) × (update_observers_transactional now
                (some node)
                args
                g
              ≡ throw e g')
            × RolledBack node (targets args) g e g')
  unfolding update_observers_transactional roll_back
  update_observers_transactional_lem args alive =
      elim (for_each_lem now node (add_observer_internal now node) (λ t k lt. refl) (targets args)
        cleared cleared_reset.valid (WasReset-sound node g cleared cleared_reset sound)
        (cleared_off.alive node ∙ live) (λ t l. cleared_off.alive t ∙ alive t l)) [
          | inl (k, e, all) ↦ inl (
            k,
            rw (add_arguments now node args cleared, e),
            record {
              valid = all.valid;
              sound = all.sound;
              keeps = Keeps-trans cleared_reset.keeps all.keeps;
              allowed = λ t l r. all.allowed t l ((Reach-off g cleared t cleared_off).0 r);
              deps = λ x y. ground (arith, all.deps x y, cleared_reset.deps x y);
            },
          )
          | inr (e, h, stops, stop) ↦
              let keeps = Keeps-trans cleared_reset.keeps stop.keeps in
              let (k, restored, valid, sound_k, same) =
                restore_lem h stop.valid stop.sound (AgreeOff-trans cleared_off stop.off) keeps in
              inr (
                e,
                k,
                rw (add_arguments now node args cleared, stops) (rw (◌>>=◌, restored)),
                record {
                  valid = valid;
                  sound = sound_k;
                  same = same;
                  culprit = stop.culprit;
                  listed = stop.listed;
                  closes = (Reach-off g cleared stop.culprit cleared_off).1 stop.closes;
                  exception =
                      stop.exception
                      ∙ rw (
                        get_name-Keeps g cleared node cleared_reset.keeps,
                        get_name-Keeps g cleared stop.culprit cleared_reset.keeps,
                      );
                },
              )
        ]
