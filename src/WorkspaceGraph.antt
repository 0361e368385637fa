-- ===== src/WorkspaceGraph.antt =====
-- src/ldaca_wordflow/domain/workspace/graph.py, the Data Blocks of a Workspace: registration, order and
-- removal. A registered Data Block is told by its id, since `nodes` gives one object for an id; an
-- object that a caller hands in is that object or another one, and the difference is what the tests by
-- `is` ask. Plans, names and colours of a Data Block are in NodePlans or are only carried.
pub mod Edges
pub mod Sound
pub mod Add
pub mod Remove
pub mod Order
pub mod History
mod Tests
use ldaca_wordflow_backend.Base.{
  ℕ, ◌+◌, Bool, true, false, not, ◌&&◌, ◌||◌, Option, none, some, List, [], ◌∷◌, ◌++◌, map, any,
  all, elem, is_distinct, without, ◌==◌, if◌then◌else◌, Dict, lookup, contains, insert, erase,
  Result, ok, err,
}
use ldaca_wordflow_backend.Text.{text_eq}
use ldaca_wordflow_backend.Provenance.{Provenance, referenced_node_ids, compose_provenance}

pub record GraphNode : Type 0 where
  pub parents : List ℕ
  pub provenance : Provenance

pub record Workspace : Type 0 where
  pub nodes : Dict GraphNode
  pub children_by_parent : Dict (List ℕ)

unfoldable pub new_workspace : Workspace
new_workspace = record { nodes = []; children_by_parent = [] }

-- A parent that a new Data Block names: the registered object of an id, another object with that id,
-- or the new Data Block itself.
pub data ParentObject : Type 0 where
  own : ℕ → ParentObject
  foreign : ℕ → ParentObject
  itself : ParentObject

-- `node.workspace`
pub data Owner : Type 0 where
  unowned this_workspace other_workspace : Owner

pub record NewNode : Type 0 where
  pub id : ℕ
  pub parents : List ParentObject
  pub provenance : Provenance
  pub owner : Owner

pub data GraphError : Type 0 where
  contains_node own_parent duplicate_parents foreign_parent provenance_mismatch belongs_elsewhere :
      GraphError
  not_a_permutation unknown_node invalid_provenance missing_key : GraphError

abbrev pub id_of : ℕ → ParentObject → ℕ
id_of self (own p) = p
id_of self (foreign p) = p
id_of self itself = self

abbrev pub parent_ids : NewNode → List ℕ
parent_ids node = map (id_of node.id) node.parents

abbrev pub is_itself : ParentObject → Bool
is_itself itself = true
is_itself _ = false

-- `parent.workspace is not self or self.nodes.get(parent.id) is not parent`
abbrev pub is_foreign : Dict GraphNode → ParentObject → Bool
is_foreign nodes (own p) = not (contains p nodes)
is_foreign nodes _ = true

abbrev pub is_other : Owner → Bool
is_other other_workspace = true
is_other _ = false

-- The constructor of `Node`, for the lineage that it is given.
unfoldable pub make_node : ℕ → List ParentObject → Provenance → Result GraphError NewNode
make_node id parents provenance =
    if text_eq (referenced_node_ids provenance) (map (id_of id) parents)
    then ok (record { id = id; parents = parents; provenance = provenance; owner = unowned })
    else err provenance_mismatch

-- The children of a parent, `self._children_by_parent[parent]`.
abbrev pub or_empty : Option (List ℕ) → List ℕ
or_empty none = []
or_empty (some cs) = cs

-- `self._children_by_parent[parent].append(child)`; a missing key, which would raise, changes nothing.
abbrev pub append_child : ℕ → ℕ → Dict (List ℕ) → Dict (List ℕ)
append_child child parent index = elim (lookup parent index) [
  | none ↦ index
  | some children ↦ insert parent (children ++ child ∷ []) index
]

abbrev pub attach : ℕ → List ℕ → Dict (List ℕ) → Dict (List ℕ)
attach child [] index = index
attach child (parent ∷ parents) index = attach child parents (append_child child parent index)

-- The body of `add_node` behind its guards.
abbrev pub register : NewNode → Workspace → Workspace
register node g = record {
  nodes =
      insert node.id (record { parents = parent_ids node; provenance = node.provenance }) g.nodes;
  children_by_parent = attach node.id (parent_ids node) (insert node.id [] g.children_by_parent);
}

unfoldable pub add_node : NewNode → Workspace → Result GraphError Workspace
add_node node g =
    if contains node.id g.nodes
    then err contains_node
    else if any is_itself node.parents
    then err own_parent
    else if not (is_distinct (parent_ids node))
    then err duplicate_parents
    else if any (is_foreign g.nodes) node.parents
    then err foreign_parent
    else if not (text_eq (referenced_node_ids node.provenance) (parent_ids node))
    then err provenance_mismatch
    else if is_other node.owner
    then err belongs_elsewhere
    else ok (register node g)

-- `none` is the `KeyError`.
unfoldable pub children_of : ℕ → Workspace → Option (List ℕ)
children_of node_id g = lookup node_id g.children_by_parent

abbrev pub keys {ℓ} : {V : Type ℓ} → Dict V → List ℕ
keys d = map (λ e. e.0) d

-- `set(xs) == set(ys)`
abbrev pub same_members : List ℕ → List ℕ → Bool
same_members xs ys = all (λ x. elem x ys) xs && all (λ y. elem y xs) ys

-- `{node_id: self.nodes[node_id] for node_id in ordered_ids}`
abbrev pub pick : List ℕ → Dict GraphNode → Dict GraphNode
pick [] nodes = []
pick (k ∷ ks) nodes = elim (lookup k nodes) [
  | none ↦ pick ks nodes
  | some n ↦ (k, n) ∷ pick ks nodes
]

unfoldable pub reorder_nodes : List ℕ → Workspace → Result GraphError Workspace
reorder_nodes ordered_ids g =
    if not (is_distinct ordered_ids) || not (same_members ordered_ids (keys g.nodes))
    then err not_a_permutation
    else ok (record g { nodes = pick ordered_ids g.nodes })

-- `order.insert(order.index(parent) + 1, node)`; `none` is the `ValueError` of a missing parent.
abbrev pub insert_after : ℕ → ℕ → List ℕ → Option (List ℕ)
insert_after parent node [] = none
insert_after parent node (k ∷ order) =
    let rest = insert_after parent node order in
    if k == parent
    then some (k ∷ node ∷ order)
    else elim rest [ none ↦ none | some ks ↦ some (k ∷ ks) ]

abbrev pub place_below : ℕ → List ℕ → Workspace → Result GraphError Workspace
place_below node_id [] g = ok g
place_below node_id (parent ∷ parents) g =
    elim (insert_after parent node_id (without node_id (keys g.nodes))) [
      | none ↦ err missing_key
      | some order ↦ reorder_nodes order g
    ]

-- For the registered object of the id.
unfoldable pub place_node_after_parent : ℕ → Workspace → Result GraphError Workspace
place_node_after_parent node_id g = elim (lookup node_id g.nodes) [
  | none ↦ err unknown_node
  | some n ↦ place_below node_id n.parents g
]

unfoldable pub node_removal_affected_ids : ℕ → Workspace → List ℕ
node_removal_affected_ids node_id g =
    if contains node_id g.nodes
    then node_id ∷ or_empty (lookup node_id g.children_by_parent)
    else []

-- What one child becomes, once its lineage is composed.
abbrev pub checked : ℕ → Dict GraphNode → Provenance → Result GraphError GraphNode
checked child survivors provenance =
    let parents = referenced_node_ids provenance in
    if elem child parents || any (λ p. not (contains p survivors)) parents
    then err invalid_provenance
    else ok (record { parents = parents; provenance = provenance })

unfoldable pub compose_child :
    ℕ → Provenance → Dict GraphNode → Dict GraphNode → ℕ → Result GraphError GraphNode
compose_child node_id replacement survivors nodes child = elim (lookup child nodes) [
  | none ↦ err missing_key
  | some c ↦ elim (compose_provenance c.provenance node_id replacement) [
    | err e ↦ err invalid_provenance
    | ok composed ↦ checked child survivors composed
  ]
]

-- The replacements, in the order of the children.
unfoldable pub compose_children :
    ℕ
    → Provenance
    → Dict GraphNode
    → Dict GraphNode
    → List ℕ
    → Result GraphError (List (ℕ × GraphNode))
compose_children node_id replacement survivors nodes [] = ok []
compose_children node_id replacement survivors nodes (child ∷ children) =
    elim (compose_child node_id replacement survivors nodes child) [
      | err e ↦ err e
      | ok c ↦ elim (compose_children node_id replacement survivors nodes children) [
        | err e ↦ err e
        | ok cs ↦ ok ((child, c) ∷ cs)
      ]
    ]

abbrev pub replace_each : List (ℕ × GraphNode) → Dict GraphNode → Dict GraphNode
replace_each [] nodes = nodes
replace_each ((child, c) ∷ cs) nodes = replace_each cs (insert child c nodes)

-- `{key: [] for key in self.nodes}`
abbrev pub empty_index : Dict GraphNode → Dict (List ℕ)
empty_index [] = []
empty_index ((k, n) ∷ nodes) = (k, []) ∷ empty_index nodes

abbrev pub attach_all : Dict GraphNode → Dict (List ℕ) → Dict (List ℕ)
attach_all [] index = index
attach_all ((k, n) ∷ nodes) index = attach_all nodes (attach k n.parents index)

abbrev pub rebuilt : Dict GraphNode → Workspace
rebuilt nodes = record { nodes = nodes; children_by_parent = attach_all nodes (empty_index nodes) }

abbrev pub remove_found : ℕ → GraphNode → List ℕ → Workspace → Result GraphError (Bool × Workspace)
remove_found node_id n children g =
    elim (compose_children node_id n.provenance (erase node_id g.nodes) g.nodes children) [
      | err e ↦ err e
      | ok replacements ↦ ok (true, rebuilt (erase node_id (replace_each replacements g.nodes)))
    ]

unfoldable pub remove_node : ℕ → Workspace → Result GraphError (Bool × Workspace)
remove_node node_id g = elim (lookup node_id g.nodes) [
  | none ↦ ok (false, g)
  | some n ↦ elim (children_of node_id g) [
    | none ↦ err missing_key
    | some children ↦ remove_found node_id n children g
  ]
]
