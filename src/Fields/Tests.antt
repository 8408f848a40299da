-- ===== src/Fields/Tests.antt =====
-- An object with two fields (include/reaction/graph/field_graph.h).
use mathlib.Core.Logic.{◌≢◌}
use reaction.Prelude.{
  ℕ, ◌≡◌, refl, true, not, some, [], nat_eq, nat_beq, find, put, insert, mem, get_or, remove,
}
use reaction.Graph.State.{Graph, new_graph, add_node}
use reaction.Graph.Invariant.{IsWellFormed, add_node-IsWellFormed}
use reaction.Graph.Edit.Public.{add_node-IsSound, IsSound, new_graph_lem}
use reaction.Fields.{FieldGraph, bound, null_target, add_obj, bind_field, delete_obj, field, var}
use reaction.Fields.Binding.{BoundTo, var_lem, gone_field_lem}

-- The nodes 1 and 2, made as the fields of object 7.
abbrev first : FieldGraph × Graph
first = field 7 1 (record { field_map = [] }) (new_graph (λ n. true))

abbrev made : FieldGraph × Graph
made = field 7 2 first.0 first.1

first-IsWellFormed : IsWellFormed first.1
unfolding field new_graph find
first-IsWellFormed =
    add_node-IsWellFormed 1 (new_graph (λ n. true)) refl (new_graph_lem (λ n. true)).0 refl

first-IsSound : IsSound first.1
unfolding field new_graph find
first-IsSound = add_node-IsSound 1 (new_graph (λ n. true)) refl (new_graph_lem (λ n. true)).1

made-IsWellFormed : IsWellFormed made.1
unfolding field new_graph find add_node put
made-IsWellFormed = add_node-IsWellFormed 2 first.1 refl first-IsWellFormed refl

made-IsSound : IsSound made.1
unfolding field new_graph find add_node put
made-IsSound = add_node-IsSound 2 first.1 refl first-IsSound

all_alive : (n : ℕ) → made.1.alive n ≡ true
unfolding field new_graph add_node
all_alive n = refl

var_lem_example :
    (g' : Graph) × (var 0 (some 7) 3 made.0 made.1 ≡ bound g')
    × BoundTo 3 (get_or (find 7 made.0.field_map) []) made.1 g'
var_lem_example =
    var_lem 0 7 3 made.0 made.1 made-IsWellFormed made-IsSound (all_alive 3)
      (unfold field new_graph find add_node put in refl)
      (unfold field new_graph find add_obj put insert mem in refl) (λ n i. all_alive n)

-- A field that is gone is still listed for its object: the next object with this id is given a
-- null target.
gone_field_run :
    var 0 (some 7) 3 made.0 (record made.1 { alive = λ n. not (nat_beq n 2) }) ≡ null_target
unfolding var field find put insert bind_field new_graph
gone_field_run = refl

-- Not so once the object has been deleted.
deleted_run : var 0 (some 7) 3 (delete_obj 7 made.0) made.1 ≡ bound (add_node 3 made.1)
unfolding var field delete_obj add_obj put remove find bind_field
deleted_run = refl

-- The graph after field 2 has been closed.
abbrev field_gone : Graph
field_gone = add_node 1 (new_graph (λ n. not (nat_beq n 2)))

gone_field_lem_example : bind_field 0 7 3 made.0 field_gone ≢ bound field_gone
gone_field_lem_example =
    gone_field_lem 0 7 3 2 made.0 field_gone field_gone
      (add_node-IsWellFormed 1 (new_graph (λ n. not (nat_beq n 2))) (unfold new_graph find in refl)
        (new_graph_lem (λ n. not (nat_beq n 2))).0 (unfold new_graph in refl))
      (add_node-IsSound 1 (new_graph (λ n. not (nat_beq n 2))) (unfold new_graph find in refl)
        (new_graph_lem (λ n. not (nat_beq n 2))).1)
      (unfold new_graph add_node in refl)
      (unfold field new_graph find add_obj put insert mem in refl)
      (unfold new_graph add_node in refl)
