-- ===== src/WorkspaceGraph/History.antt =====
-- Every history of the Data Blocks of graph.py keeps the lineage indexed, registered and acyclic.
use ldaca_wordflow_backend.Base.{
  ℕ, ◌≡◌, refl, sym, subst, inl, inr, Bool, false, some, List, [], ◌∷◌, arith, lookup, Result, ok,
  err, Result-cases, Option-cases, All,
}
use ldaca_wordflow_backend.Provenance.{is_reference}
use ldaca_wordflow_backend.WorkspaceGraph.{
  GraphNode, Workspace, NewNode, GraphError, new_workspace, add_node, reorder_nodes,
  place_node_after_parent, remove_node,
}
use ldaca_wordflow_backend.WorkspaceGraph.Sound.{IsAcyclic, new_workspace-IsAcyclic}
use ldaca_wordflow_backend.WorkspaceGraph.Add.{add_node-IsAcyclic}
use ldaca_wordflow_backend.WorkspaceGraph.Remove.{remove_node-IsRemoved}
use ldaca_wordflow_backend.WorkspaceGraph.Order.{
  reorder_nodes-cases, place_node_after_parent-IsMoved,
}

pub data Edit : Type 0 where
  adding : NewNode → Edit
  reordering : List ℕ → Edit
  placing : ℕ → Edit
  removing : ℕ → Edit

-- A call that raises leaves the Workspace as it was: each checks before it changes anything.
abbrev pub kept : Workspace → Result GraphError Workspace → Workspace
kept g (ok h) = h
kept g (err e) = g

abbrev pub kept_second : Workspace → Result GraphError (Bool × Workspace) → Workspace
kept_second g (ok h) = h.1
kept_second g (err e) = g

abbrev pub step : Edit → Workspace → Workspace
step (adding node) g = kept g (add_node node g)
step (reordering order) g = kept g (reorder_nodes order g)
step (placing node) g = kept g (place_node_after_parent node g)
step (removing node) g = kept_second g (remove_node node g)

abbrev pub run : List Edit → Workspace → Workspace
run [] g = g
run (e ∷ es) g = run es (step e g)

-- The lineage of a new Data Block is no bare reference, as its type says.
abbrev pub IsTyped : Edit → Type 0
IsTyped (adding node) = is_reference node.provenance ≡ false
IsTyped _ = Unit

kept-IsAcyclic :
    (g h : Workspace) (r : Result GraphError Workspace)
    → r ≡ ok h
    → IsAcyclic h
    → IsAcyclic (kept g r)
kept-IsAcyclic g h r e a = rw e a

added-IsAcyclic :
    (node : NewNode) (g : Workspace)
    → is_reference node.provenance ≡ false
    → IsAcyclic g
    → IsAcyclic (kept g (add_node node g))
added-IsAcyclic node g top a = elim (Result-cases (add_node node g)) [
  | inl (x, e) ↦ subst (λ r. IsAcyclic (kept g r)) (sym e) a
  | inr (h, e) ↦ kept-IsAcyclic g h (add_node node g) e (add_node-IsAcyclic node g h a top e).0
]

reordered-IsAcyclic :
    (order : List ℕ) (g : Workspace) → IsAcyclic g → IsAcyclic (kept g (reorder_nodes order g))
reordered-IsAcyclic order g a = elim (reorder_nodes-cases order g a) [
  | inl (o, (h, e, r)) ↦ kept-IsAcyclic g h (reorder_nodes order g) e r.acyclic
  | inr (o, e) ↦ subst (λ r. IsAcyclic (kept g r)) (sym e) a
]

placed_parents-IsAcyclic :
    (node : ℕ) (n : GraphNode) (parents : List ℕ) (g : Workspace)
    → lookup node g.nodes ≡ some n
    → n.parents ≡ parents
    → IsAcyclic g
    → IsAcyclic (kept g (place_node_after_parent node g))
unfolding place_node_after_parent
placed_parents-IsAcyclic node n [] g found e a =
    kept-IsAcyclic g g (place_node_after_parent node g) (ground (arith, found, e)) a
placed_parents-IsAcyclic node n (p ∷ ps) g found e a =
    let (h, f, m) = place_node_after_parent-IsMoved node n p ps g a found e in
    kept-IsAcyclic g h (place_node_after_parent node g) f m.acyclic

placed-IsAcyclic :
    (node : ℕ) (g : Workspace) → IsAcyclic g → IsAcyclic (kept g (place_node_after_parent node g))
unfolding place_node_after_parent
placed-IsAcyclic node g a = elim (Option-cases (lookup node g.nodes)) [
  | inl missing ↦ rw (missing, place_node_after_parent) a
  | inr (n, found) ↦ placed_parents-IsAcyclic node n n.parents g found refl a
]

removed-IsAcyclic :
    (node : ℕ) (g : Workspace) → IsAcyclic g → IsAcyclic (kept_second g (remove_node node g))
unfolding remove_node
removed-IsAcyclic node g a = elim (Option-cases (lookup node g.nodes)) [
  | inl missing ↦ rw (missing, remove_node) a
  | inr (n, found) ↦
      let (h, e, r) = remove_node-IsRemoved g node n a found in
      subst (λ o. IsAcyclic (kept_second g o)) (sym e) r.acyclic
]

step-IsAcyclic : (e : Edit) (g : Workspace) → IsTyped e → IsAcyclic g → IsAcyclic (step e g)
step-IsAcyclic (adding node) g t a = added-IsAcyclic node g t a
step-IsAcyclic (reordering order) g t a = reordered-IsAcyclic order g a
step-IsAcyclic (placing node) g t a = placed-IsAcyclic node g a
step-IsAcyclic (removing node) g t a = removed-IsAcyclic node g a

run_from-IsAcyclic :
    (es : List Edit) (g : Workspace) → All IsTyped es → IsAcyclic g → IsAcyclic (run es g)
run_from-IsAcyclic [] g t a = a
run_from-IsAcyclic (e ∷ es) g t a = run_from-IsAcyclic es (step e g) t.1 (step-IsAcyclic e g t.0 a)

-- After any additions, reorderings, placements and removals on a new Workspace, refused ones included,
-- with lineages that are no bare references: the parents of each Data Block are the live references of
-- its lineage and are registered, the index of children is exact, and the lineage has no cycle.
pub run-IsAcyclic : (es : List Edit) → All IsTyped es → IsAcyclic (run es new_workspace)
run-IsAcyclic es t = run_from-IsAcyclic es new_workspace t new_workspace-IsAcyclic
