-- ===== src/WorkspaceGraph/Add.antt =====
-- `add_node` of graph.py keeps the lineage closed, indexed and free of cycles.
use ldaca_wordflow_backend.Base.{
  ℕ, suc, ◌<◌, ◌≡◌, sym, subst, inl, inr, true, false, some, List, [], ◌∷◌, arith, max, map, any,
  elem, is_distinct, ◌==◌, if◌then◌else◌, Dict, lookup, contains, insert, lookup-insert,
  insert-IsUnique, ok, Bool-cases,
}
use ldaca_wordflow_backend.Text.{text_eq, text_eq_iff}
use ldaca_wordflow_backend.Provenance.{is_reference, referenced_node_ids}
use ldaca_wordflow_backend.WorkspaceGraph.{
  GraphNode, Workspace, ParentObject, own, foreign, itself, NewNode, id_of, parent_ids, is_foreign,
  attach, register, add_node,
}
use ldaca_wordflow_backend.WorkspaceGraph.Edges.{
  is_child, has_edge, contains-attach, is_child-attach,
}
use ldaca_wordflow_backend.WorkspaceGraph.Sound.{
  IsPlaced, ArePlaced, IsSound, IsAcyclic, absent-has_edge,
}

-- A rank above those of all parents.
abbrev above : (ℕ → ℕ) → List ℕ → ℕ
above rank [] = 0
above rank (p ∷ ps) = max (suc (rank p)) (above rank ps)

lt-above : (rank : ℕ → ℕ) (p : ℕ) (ps : List ℕ) → elem p ps ≡ true → rank p < above rank ps
lt-above rank p [] e = absurd (ground arith)
lt-above rank p (q ∷ ps) e = elim (Bool-cases (p == q)) [
  | inl same ↦ let same' : p ≡ q = ground arith in rw same' (omega arith)
  | inr other ↦ omega (arith, lt-above rank p ps (ground arith))
]

registered_parents :
    (id p : ℕ) (nodes : Dict GraphNode) (parents : List ParentObject)
    → any (is_foreign nodes) parents ≡ false
    → elem p (map (id_of id) parents) ≡ true
    → contains p nodes ≡ true
registered_parents id p nodes [] f e = absurd (ground arith)
registered_parents id p nodes (own q ∷ ps) f e = ground (arith, registered_parents id p nodes ps)
registered_parents id p nodes (foreign q ∷ ps) f e = absurd (ground arith)
registered_parents id p nodes (itself ∷ ps) f e = absurd (ground arith)

module _ (rank : ℕ → ℕ) (node : NewNode) (g : Workspace) (v : IsSound rank g)
    (fresh : contains node.id g.nodes ≡ false)
    (closed : (p : ℕ) → elem p (parent_ids node) ≡ true → contains p g.nodes ≡ true) where
  abbrev raised : ℕ → ℕ
  raised k = if k == node.id then above rank (parent_ids node) else rank k

  abbrev entry : GraphNode
  entry = record { parents = parent_ids node; provenance = node.provenance }

  entry-IsPlaced :
      is_reference node.provenance ≡ false
      → parent_ids node ≡ referenced_node_ids node.provenance
      → IsPlaced raised (insert node.id entry g.nodes) node.id entry
  entry-IsPlaced top e = record {
    lineage = e;
    no_reference = top;
    closed = λ p f. ground (arith, closed p, lookup-insert node.id p entry g.nodes);
    ranked = λ p f. ground (arith, closed p, lt-above rank p (parent_ids node));
  }

  old-IsPlaced :
      (k : ℕ) (n : GraphNode)
      → lookup k g.nodes ≡ some n
      → IsPlaced raised (insert node.id entry g.nodes) k n
  old-IsPlaced k n e =
      let w = v.placed k n e in
      record {
        lineage = w.lineage;
        no_reference = w.no_reference;
        closed = λ p f. ground (arith, w.closed p, lookup-insert node.id p entry g.nodes);
        ranked = λ p f. ground (arith, w.closed p, w.ranked p);
      }

  register-edges :
      (c p : ℕ)
      → is_child c p (attach node.id (parent_ids node) (insert node.id [] g.children_by_parent))
        ≡ has_edge c p (insert node.id entry g.nodes)
  register-edges c p = ground (
    arith,
    is_child-attach c p node.id (parent_ids node) (insert node.id [] g.children_by_parent),
    lookup-insert node.id p [] g.children_by_parent,
    lookup-insert node.id c entry g.nodes,
    v.edges c p,
    v.indexed p,
    absent-has_edge rank g.nodes c node.id v.placed,
    closed p,
  )

  register-IsPlaced :
      is_reference node.provenance ≡ false
      → parent_ids node ≡ referenced_node_ids node.provenance
      → ArePlaced raised (insert node.id entry g.nodes)
  register-IsPlaced top e k n f =
      let nodes = insert node.id entry g.nodes in
      elim (Bool-cases (k == node.id)) [
        | inl same ↦
            let here : node.id ≡ k = ground arith in
            let new : entry ≡ n = ground (arith, lookup-insert node.id k entry g.nodes) in
            subst (λ m. IsPlaced raised nodes k m) new
              (subst (λ j. IsPlaced raised nodes j entry) here (entry-IsPlaced top e))
        | inr other ↦ old-IsPlaced k n (ground (arith, lookup-insert node.id k entry g.nodes))
      ]

  register-IsSound :
      is_reference node.provenance ≡ false
      → parent_ids node ≡ referenced_node_ids node.provenance
      → IsSound raised (register node g)
  register-IsSound top e = record {
    unique = insert-IsUnique node.id entry g.nodes v.unique;
    indexed = λ p. ground (
      arith,
      contains-attach p node.id (parent_ids node) (insert node.id [] g.children_by_parent),
      lookup-insert node.id p [] g.children_by_parent,
      lookup-insert node.id p entry g.nodes,
      v.indexed p,
    );
    edges = register-edges;
    placed = register-IsPlaced top e;
  }

-- The guards that an accepted Data Block has passed.
pub record IsAccepted (node : NewNode) (g : Workspace) : Type 0 where
  pub fresh : contains node.id g.nodes ≡ false
  pub distinct : is_distinct (parent_ids node) ≡ true
  pub registered : any (is_foreign g.nodes) node.parents ≡ false
  pub lineage : text_eq (referenced_node_ids node.provenance) (parent_ids node) ≡ true

add_node-IsAccepted :
    (node : NewNode) (g h : Workspace)
    → add_node node g ≡ ok h
    → IsAccepted node g × (h ≡ register node g)
unfolding add_node
add_node-IsAccepted node g h e = (
  record {
    fresh = ground arith;
    distinct = ground arith;
    registered = ground arith;
    lineage = ground arith;
  },
  ground arith,
)

-- A Data Block whose lineage is no bare reference and that `add_node` takes into a Workspace with
-- indexed, registered and acyclic lineage leaves it such a Workspace, with one Data Block more.
pub add_node-IsAcyclic :
    (node : NewNode) (g h : Workspace)
    → IsAcyclic g
    → is_reference node.provenance ≡ false
    → add_node node g ≡ ok h
    → IsAcyclic h
      × ((k : ℕ)
          → lookup k h.nodes ≡ (
              if k == node.id
              then some (record { parents = parent_ids node; provenance = node.provenance })
              else lookup k g.nodes))
add_node-IsAcyclic node g h (rank, v) top e =
    let (a, same) = add_node-IsAccepted node g h e in
    let closed = λ (p : ℕ) (f : elem p (parent_ids node) ≡ true).
      registered_parents node.id p g.nodes node.parents a.registered f in
    let lineage : parent_ids node ≡ referenced_node_ids node.provenance =
      sym ((text_eq_iff (referenced_node_ids node.provenance) (parent_ids node)).0 a.lineage) in
    (
      (
        raised rank node g v a.fresh closed,
        subst (IsSound (raised rank node g v a.fresh closed)) (sym same)
            (register-IsSound rank node g v a.fresh closed top lineage),
      ),
      λ k. rw same (
          lookup-insert node.id k
            (record { parents = parent_ids node; provenance = node.provenance }) g.nodes),
    )
