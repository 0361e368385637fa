-- ===== src/WorkspaceGraph/Tests.antt =====
-- graph.py at concrete inputs.
use ldaca_wordflow_backend.Base.{
  ℕ, ◌≡◌, ◌⊎◌, refl, true, false, some, List, [], ◌∷◌, lookup, if◌then◌else◌, ◌==◌, ok, err,
}
use ldaca_wordflow_backend.Text.{text_eq}
use ldaca_wordflow_backend.Derivation.{clone, concat}
use ldaca_wordflow_backend.Provenance.{
  Provenance, source, node, derivation, end, input, source_role, member, referenced_node_ids, visit,
  compose_provenance, replace_value,
}
use ldaca_wordflow_backend.WorkspaceGraph.{
  GraphNode, Workspace, NewNode, own, unowned, new_workspace, keys, parent_ids, add_node,
  remove_node, compose_children, compose_child, children_of, reorder_nodes, place_node_after_parent,
  not_a_permutation,
}
use ldaca_wordflow_backend.WorkspaceGraph.Sound.{IsAcyclic}
use ldaca_wordflow_backend.WorkspaceGraph.Add.{add_node-IsAcyclic}
use ldaca_wordflow_backend.WorkspaceGraph.Remove.{IsRemoved, remove_node-IsRemoved}
use ldaca_wordflow_backend.WorkspaceGraph.Order.{
  IsOrderOf, IsReordered, IsMoved, reorder_nodes-cases, place_node_after_parent-IsMoved,
}
use ldaca_wordflow_backend.WorkspaceGraph.History.{
  Edit, adding, placing, removing, run, run-IsAcyclic,
}

abbrev root : ℕ → NewNode
root id = record { id = id; parents = []; provenance = source; owner = unowned }

abbrev cloned : ℕ → Provenance
cloned id = derivation clone (input source_role (node id) end)

abbrev joined : ℕ → ℕ → Provenance
joined a b = derivation (concat false) (input member (node a) (input member (node b) end))

abbrev copy : NewNode
copy = record { id = 3; parents = own 1 ∷ []; provenance = cloned 1; owner = unowned }

abbrev both : NewNode
both = record { id = 4; parents = own 3 ∷ own 2 ∷ []; provenance = joined 3 2; owner = unowned }

abbrev edits : List Edit
edits = adding (root 1) ∷ adding (root 2) ∷ adding copy ∷ adding both ∷ placing 3 ∷ []

abbrev built : Workspace
built = run edits new_workspace

built_order : keys built.nodes ≡ 1 ∷ 3 ∷ 2 ∷ 4 ∷ []
unfolding new_workspace add_node reorder_nodes place_node_after_parent referenced_node_ids visit
    text_eq
built_order = refl

-- Without the copy, the concatenation is of a clone of the first root and of the second.
removed_copy :
    lookup 4 (run (removing 3 ∷ []) built).nodes
    ≡ some (record {
      parents = 1 ∷ 2 ∷ [];
      provenance = derivation (concat false) (input member (cloned 1) (input member (node 2) end));
    })
unfolding new_workspace add_node reorder_nodes place_node_after_parent referenced_node_ids visit
    text_eq remove_node children_of compose_children compose_child compose_provenance replace_value
removed_copy = refl

built-IsAcyclic : IsAcyclic built
built-IsAcyclic = run-IsAcyclic edits (refl, (refl, (refl, (refl, (tt, tt)))))

run-IsAcyclic_example : IsAcyclic (run (adding (root 1) ∷ removing 1 ∷ []) new_workspace)
run-IsAcyclic_example = run-IsAcyclic (adding (root 1) ∷ removing 1 ∷ []) (refl, (tt, tt))

abbrev copy_entry : GraphNode
copy_entry = record { parents = 1 ∷ []; provenance = cloned 1 }

remove_node-IsRemoved_example :
    (h : Workspace) × (remove_node 3 built ≡ ok (true, h)) × IsRemoved 3 copy_entry built h
unfolding new_workspace add_node reorder_nodes place_node_after_parent referenced_node_ids visit
    text_eq
remove_node-IsRemoved_example = remove_node-IsRemoved built 3 copy_entry built-IsAcyclic refl

place_node_after_parent-IsMoved_example :
    (h : Workspace) × (place_node_after_parent 3 built ≡ ok h) × IsMoved 1 3 built h
unfolding new_workspace add_node reorder_nodes place_node_after_parent referenced_node_ids visit
    text_eq
place_node_after_parent-IsMoved_example =
    place_node_after_parent-IsMoved 3 copy_entry 1 [] built built-IsAcyclic refl refl

reorder_nodes-cases_example :
    (IsOrderOf (4 ∷ 3 ∷ 2 ∷ 1 ∷ []) built
      × ((h : Workspace) × (reorder_nodes (4 ∷ 3 ∷ 2 ∷ 1 ∷ []) built ≡ ok h)
          × IsReordered (4 ∷ 3 ∷ 2 ∷ 1 ∷ []) built h))
    ⊎ (¬ IsOrderOf (4 ∷ 3 ∷ 2 ∷ 1 ∷ []) built
        × (reorder_nodes (4 ∷ 3 ∷ 2 ∷ 1 ∷ []) built ≡ err not_a_permutation))
reorder_nodes-cases_example = reorder_nodes-cases (4 ∷ 3 ∷ 2 ∷ 1 ∷ []) built built-IsAcyclic

abbrev third : NewNode
third = record { id = 5; parents = own 4 ∷ []; provenance = cloned 4; owner = unowned }

abbrev grown : Workspace
grown = run (adding third ∷ []) built

add_node-IsAcyclic_example :
    IsAcyclic grown
    × ((k : ℕ)
        → lookup k grown.nodes ≡ (
            if k == 5
            then some (record { parents = parent_ids third; provenance = third.provenance })
            else lookup k built.nodes))
unfolding new_workspace add_node reorder_nodes place_node_after_parent referenced_node_ids visit
    text_eq
add_node-IsAcyclic_example = add_node-IsAcyclic third built grown built-IsAcyclic refl refl
