-- ===== src/Fields.antt =====
-- Objects with reactive fields: `FieldGraph` (include/reaction/graph/field_graph.h), and the
-- functions of include/reaction/factory/reactive_factory.h that make fields and objects.
pub mod Binding
pub mod Tests
use reaction.Prelude.{
  ℕ, Bool, true, false, Option, none, some, List, [], ◌∷◌, nat_eq, insert, find, put, remove,
  get_or,
}
use reaction.Exception.{ok, throw, out_of_fuel, ReactionException}
use reaction.Graph.State.{Graph, NodeSet, add_node}
use reaction.Graph.Edit.{add_observer}

-- `FieldGraph`: for each object its field nodes.
pub record FieldGraph : Type 0 where
  pub field_map : List (ℕ × NodeSet)

unfoldable pub add_obj : ℕ → ℕ → FieldGraph → FieldGraph
add_obj id node f = record {
  field_map = put id (insert node (get_or (find id f.field_map) [])) f.field_map;
}

unfoldable pub delete_obj : ℕ → FieldGraph → FieldGraph
delete_obj id f = record { field_map = remove id f.field_map }

-- How a binding ends. A field that is gone gives `addObserver` a null target, whose members it
-- uses without a check: `null_target`.
pub data Bound : Type 0 where
  bound : Graph → Bound
  refused : ReactionException → Graph → Bound
  null_target no_fuel : Bound

-- The loop of `bindField`.
unfoldable pub bind_each : ℕ → ℕ → NodeSet → Graph → Bound
unfolding add_observer
bind_each now obj [] g = bound g
bind_each now obj (n ∷ ns) g = elim (g.alive n) [
  | false ↦ null_target
  | true ↦ elim (add_observer now obj n g) [
    | ok _ g' ↦ bind_each now obj ns g'
    | throw e g' ↦ refused e g'
    | out_of_fuel ↦ no_fuel
  ]
]

-- `bindField`
unfoldable pub bind_field : ℕ → ℕ → ℕ → FieldGraph → Graph → Bound
unfolding bind_each
bind_field now id obj f g = elim (find id f.field_map) [
  | none ↦ bound g
  | some nodes_to_bind ↦ bind_each now obj nodes_to_bind g
]

-- `FieldBase::field`, for a new node of an object with this id.
unfoldable pub field : ℕ → ℕ → FieldGraph → Graph → FieldGraph × Graph
unfolding add_obj add_node
field id node f g = (add_obj id node f, add_node node g)

-- `var` for a new node; the id is that of the value, if its type has fields.
unfoldable pub var : ℕ → Option ℕ → ℕ → FieldGraph → Graph → Bound
unfolding bind_field add_node
var now none node f g = bound (add_node node g)
var now (some id) node f g = bind_field now id node f (add_node node g)
