-- ===== src/Fields/Binding.antt =====
-- What `var` does for a value with fields (include/reaction/factory/reactive_factory.h,
-- include/reaction/graph/field_graph.h).
use reaction.Prelude.{
  ℕ, ◌≡◌, ◌≢◌, refl, sym, ap, ◌∙◌, inl, inr, true, false, ◌||◌, ◌&&◌, some, [], ◌∷◌, nat_beq,
  nat_beq_iff, nat_eq, mem, find, get_or, arith, Bool-cases, Option-cases,
}
use mathlib.Core.Bool.{true≢false}
use reaction.Prelude.Walks.{Reach, here, via}
use reaction.Exception.{ok, throw, ReactionException}
use reaction.Graph.State.{Graph, NodeSet, dependents, contains, add_node}
use reaction.Graph.Edges.{Edge}
use reaction.Graph.Invariant.{IsWellFormed, add_node-IsWellFormed, add_node-SameEdges, mem-add_node}
use reaction.Graph.Edit.{add_observer}
use reaction.Graph.Edit.Add.{AgreeOff, AgreeOff-of_same, Reach-off}
use reaction.Graph.Edit.Public.{add_node-IsSound, IsSound, AddedSound, add_observer_lem}
use reaction.Fields.{FieldGraph, bound, refused, null_target, bind_each, bind_field, var}

-- The object depends on all of `ds` in addition, and no other edge changed.
pub record BoundTo (obj : ℕ) (ds : NodeSet) (g g' : Graph) : Type 0 where
  pub valid : IsWellFormed g'
  pub sound : IsSound g'
  pub deps :
      (x y : ℕ) → mem y (dependents g' x) ≡ (nat_beq obj x && mem y ds || mem y (dependents g x))

module _ (now obj : ℕ) where
  next :
      (n : ℕ) (ns : NodeSet) (g h : Graph)
      → g.alive n ≡ true
      → add_observer now obj n g ≡ ok tt h
      → bind_each now obj (n ∷ ns) g ≡ bind_each now obj ns h
  unfolding bind_each
  next n ns g h live e = rw (bind_each, live, e)

  AddedSound-off : (n : ℕ) (g h : Graph) → AddedSound obj n g h → AgreeOff obj g h
  AddedSound-off n g h a = record {
    off = λ x y o. ground (arith, a.deps x y, o);
    alive = a.keeps.alive;
  }

  bind_each_lem :
      (ns : NodeSet) (g : Graph)
      → IsWellFormed g
      → IsSound g
      → g.alive obj ≡ true
      → ((n : ℕ) → mem n ns ≡ true → (g.alive n ≡ true) × (¬ Reach (Edge g) n obj))
      → (g' : Graph) × (bind_each now obj ns g ≡ bound g') × BoundTo obj ns g g'
  unfolding bind_each mem
  bind_each_lem [] g w sound live ready =
      (g, refl, record { valid = w; sound = sound; deps = λ x y. ground arith })
  bind_each_lem (n ∷ ns) g w sound live ready =
      let first = ready n (ground (arith, nat_beq_iff n n)) in
      elim (add_observer_lem now obj n g w sound live first.0) [
        | inr (x, h, e, r, _) ↦ absurd (first.1 r.closes)
        | inl (h, e, a) ↦
            let off = AddedSound-off n g h a in
            let (k, f, b) = bind_each_lem ns h a.valid a.sound (a.keeps.alive obj ∙ live) (λ m i. (
              a.keeps.alive m ∙ (ready m (later m i)).0,
              λ r. (ready m (later m i)).1 ((Reach-off g h m off).1 r),
            )) in
            (
              k,
              next n ns g h first.0 e ∙ f,
              record {
                valid = b.valid;
                sound = b.sound;
                deps =
                    λ x y. ground (arith, b.deps x y, a.deps x y, nat_beq_iff n y, nat_beq_iff y n);
              },
            )
      ]
    where
      later : (m : ℕ) → mem m ns ≡ true → mem m (n ∷ ns) ≡ true
      later m i = ground arith

module _ (now id obj : ℕ) (f : FieldGraph) (g : Graph) where
  abbrev fields : NodeSet
  fields = get_or (find id f.field_map) []

  bind_field-eq : bind_field now id obj f g ≡ bind_each now obj fields g
  unfolding bind_field bind_each
  bind_field-eq = elim (Option-cases (find id f.field_map)) [
    | inl e ↦ rw (bind_field, e)
    | inr (ns, e) ↦ rw (bind_field, e)
  ]

  bind_field_lem :
      IsWellFormed g
      → IsSound g
      → g.alive obj ≡ true
      → ((n : ℕ) → mem n fields ≡ true → (g.alive n ≡ true) × (¬ Reach (Edge g) n obj))
      → (g' : Graph) × (bind_field now id obj f g ≡ bound g') × BoundTo obj fields g g'
  bind_field_lem w sound live ready =
      let (g', e, b) = bind_each_lem now obj fields g w sound live ready in
      (g', bind_field-eq ∙ e, b)

module _ (now obj gone : ℕ) where
  never_bound :
      (ns : NodeSet) (g g' : Graph)
      → IsWellFormed g
      → IsSound g
      → g.alive obj ≡ true
      → mem gone ns ≡ true
      → g.alive gone ≡ false
      → bind_each now obj ns g ≢ bound g'
  unfolding bind_each mem
  never_bound [] g g' w sound live listed dead e = true≢false (sym listed)
  never_bound (n ∷ ns) g g' w sound live listed dead e = elim (Bool-cases (g.alive n)) [
    | inl up ↦ elim (add_observer_lem now obj n g w sound live up) [
      | inr (x, h, stops, r, _) ↦ not_bound (sym (thrown x h up stops) ∙ e)
      | inl (h, goes, a) ↦
          never_bound ns h g' a.valid a.sound (a.keeps.alive obj ∙ live) (rest up)
            (a.keeps.alive gone ∙ dead) (sym (next now obj n ns g h up goes) ∙ e)
    ]
    | inr away ↦ no_target (sym (crashed away) ∙ e)
  ]
    where
      thrown :
          (x : ReactionException) (h : Graph)
          → g.alive n ≡ true
          → add_observer now obj n g ≡ throw x h
          → bind_each now obj (n ∷ ns) g ≡ refused x h
      thrown x h a t = rw (bind_each, a, t)

      crashed : g.alive n ≡ false → bind_each now obj (n ∷ ns) g ≡ null_target
      crashed a = rw (bind_each, a)

      not_bound : {x : ReactionException} {h k : Graph} → refused x h ≢ bound k
      not_bound z = cc

      no_target : {k : Graph} → null_target ≢ bound k
      no_target z = cc

      rest : g.alive n ≡ true → mem gone ns ≡ true
      rest up = elim (Bool-cases (nat_beq gone n)) [
        | inl same ↦
            absurd (true≢false (sym up ∙ ap g.alive (sym ((nat_beq_iff gone n).0 same)) ∙ dead))
        | inr other ↦ ground (arith, listed, other)
      ]

-- On a well-formed graph whose cached answers are right: as long as a field that is gone is listed
-- for the object, `bindField` for a living node does not return normally.
pub gone_field_lem :
    (now id obj gone : ℕ) (f : FieldGraph) (g g' : Graph)
    → IsWellFormed g
    → IsSound g
    → g.alive obj ≡ true
    → mem gone (get_or (find id f.field_map) []) ≡ true
    → g.alive gone ≡ false
    → bind_field now id obj f g ≢ bound g'
gone_field_lem now id obj gone f g g' w sound live listed dead e =
    never_bound now obj gone (get_or (find id f.field_map) []) g g' w sound live listed dead
      (sym (bind_field-eq now id obj f g) ∙ e)

-- A node that the graph does not know is not led to.
no_way :
    (g : Graph) (obj n : ℕ)
    → IsWellFormed g
    → contains g obj ≡ false
    → nat_beq n obj ≡ false
    → ¬ Reach (Edge g) n obj
no_way g obj n w new away here = true≢false (sym ((nat_beq_iff n n).1 refl) ∙ away)
no_way g obj n w new away (via {b = b} e r) = elim (Bool-cases (nat_beq b obj)) [
  | inl same ↦
      true≢false (sym (w.known n b e.0) ∙ ap (contains g) ((nat_beq_iff b obj).0 same) ∙ new)
  | inr other ↦ no_way g obj b w new other r
]

-- On a well-formed graph whose cached answers are right, for a new node that is alive and no field
-- of the object, all of whose fields are alive: `var` returns, the node depends on exactly the
-- fields of the object, all other dependencies are as before, and the graph is well-formed with
-- right cached answers.
pub var_lem :
    (now id node : ℕ) (f : FieldGraph) (g : Graph)
    → IsWellFormed g
    → IsSound g
    → g.alive node ≡ true
    → contains g node ≡ false
    → mem node (fields now id node f g) ≡ false
    → ((n : ℕ) → mem n (fields now id node f g) ≡ true → g.alive n ≡ true)
    → (g' : Graph) × (var now (some id) node f g ≡ bound g')
      × BoundTo node (get_or (find id f.field_map) []) g g'
unfolding var
var_lem now id node f g w sound live new apart fresh =
    let h = add_node node g in
    let w' = add_node-IsWellFormed node g new w live in
    let same = add_node-SameEdges node g new in
    let (g', e, b) =
      bind_field_lem now id node f h w' (add_node-IsSound node g new sound)
        (same.keeps.alive node ∙ live)
        (λ n i. (
          same.keeps.alive n ∙ fresh n i,
          λ r.
              no_way g node n w new (other n i)
                ((Reach-off g h n (AgreeOff-of_same node g h same)).1 r),
        )) in
    (
      g',
      e,
      record {
        valid = b.valid;
        sound = b.sound;
        deps = λ x y. ground (arith, b.deps x y, mem-add_node node g new x y);
      },
    )
  where
    other : (n : ℕ) → mem n (fields now id node f g) ≡ true → nat_beq n node ≡ false
    other n i = elim (Bool-cases (nat_beq n node)) [
      | inl same ↦ absurd (
          true≢false (
            sym i ∙ ap (λ k. mem k (fields now id node f g)) ((nat_beq_iff n node).0 same) ∙ apart))
      | inr away ↦ away
    ]
