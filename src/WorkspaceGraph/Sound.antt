-- ===== src/WorkspaceGraph/Sound.antt =====
-- The invariant of the Data Blocks of graph.py.
use ldaca_wordflow_backend.Base.{
  ℕ, ◌<◌, ◌≡◌, refl, true, false, Option, none, some, arith, elem, Dict, lookup, contains, IsUnique,
}
use ldaca_wordflow_backend.Provenance.{is_reference, referenced_node_ids}
use ldaca_wordflow_backend.WorkspaceGraph.{
  GraphNode, Workspace, new_workspace, empty_index, attach_all, rebuilt,
}
use ldaca_wordflow_backend.WorkspaceGraph.Edges.{
  is_child, has_edge, parent_in, contains-attach_all, is_child-attach_all, contains-empty_index,
  is_child-empty_index,
}

-- What holds of a registered Data Block: its parents are the live references of its lineage, they are
-- registered, and they stand below it in an order of all Data Blocks.
pub record IsPlaced (rank : ℕ → ℕ) (nodes : Dict GraphNode) (id : ℕ) (n : GraphNode) : Type 0 where
  pub lineage : n.parents ≡ referenced_node_ids n.provenance
  pub no_reference : is_reference n.provenance ≡ false
  pub closed : (p : ℕ) → elem p n.parents ≡ true → contains p nodes ≡ true
  pub ranked : (p : ℕ) → elem p n.parents ≡ true → rank p < rank id

abbrev pub ArePlaced : (ℕ → ℕ) → Dict GraphNode → Type 0
ArePlaced rank nodes =
    (id : ℕ) (n : GraphNode) → lookup id nodes ≡ some n → IsPlaced rank nodes id n

pub record IsSound (rank : ℕ → ℕ) (g : Workspace) : Type 0 where
  pub unique : IsUnique g.nodes
  pub indexed : (p : ℕ) → contains p g.children_by_parent ≡ contains p g.nodes
  pub edges : (c p : ℕ) → is_child c p g.children_by_parent ≡ has_edge c p g.nodes
  pub placed : ArePlaced rank g.nodes

-- The lineage has no cycle: some order of the Data Blocks has every parent below its child.
abbrev pub IsAcyclic : Workspace → Type 0
IsAcyclic g = (rank : ℕ → ℕ) × IsSound rank g

pub new_workspace-IsAcyclic : IsAcyclic new_workspace
unfolding new_workspace
new_workspace-IsAcyclic = (
  λ k. 0,
  record {
    unique = tt;
    indexed = λ p. refl;
    edges = λ c p. refl;
    placed = λ id n e. absurd (ground arith);
  },
)

-- An edge to a Data Block that is not registered is none.
pub absent-has_edge :
    (rank : ℕ → ℕ) (nodes : Dict GraphNode) (c p : ℕ)
    → ArePlaced rank nodes
    → contains p nodes ≡ false
    → has_edge c p nodes ≡ false
absent-has_edge rank nodes c p placed e = go (lookup c nodes) refl
  where
    go : (o : Option GraphNode) → lookup c nodes ≡ o → parent_in p o ≡ false
    go none f = refl
    go (some n) f = ground (arith, (placed c n f).closed p)

rebuilt-edges :
    (rank : ℕ → ℕ) (nodes : Dict GraphNode)
    → IsUnique nodes
    → ArePlaced rank nodes
    → (c p : ℕ) → is_child c p (attach_all nodes (empty_index nodes)) ≡ has_edge c p nodes
rebuilt-edges rank nodes u placed c p = ground (
  arith,
  is_child-attach_all c p nodes (empty_index nodes) u,
  is_child-empty_index c p nodes,
  contains-attach_all p nodes (empty_index nodes),
  contains-empty_index p nodes,
  absent-has_edge rank nodes c p placed,
)

pub rebuilt-IsSound :
    (rank : ℕ → ℕ) (nodes : Dict GraphNode)
    → IsUnique nodes
    → ArePlaced rank nodes
    → IsSound rank (rebuilt nodes)
rebuilt-IsSound rank nodes u placed = record {
  unique = u;
  indexed = λ p.
      ground (arith, contains-attach_all p nodes (empty_index nodes), contains-empty_index p nodes);
  edges = λ c p. rebuilt-edges rank nodes u placed c p;
  placed = placed;
}
