-- ===== src/WorkspaceGraph/Order.antt =====
-- The order of the Data Blocks of graph.py: reordering, and the place below a parent.
use ldaca_wordflow_backend.Base.{
  ℕ, ◌≡◌, ◌↔◌, ◌⊎◌, refl, sym, ap, subst, ◌∙◌, inl, inr, Bool, true, false, ◌&&◌, ◌||◌, none, some,
  List, [], ◌∷◌, arith, all, elem, is_distinct, IsDistinct, is_distinct-IsDistinct, without,
  elem-without, without-IsDistinct, ◌==◌, ==_refl, if◌then◌else◌, Dict, lookup, contains, IsUnique,
  ok, err, Bool-cases, Option-cases,
}
use ldaca_wordflow_backend.WorkspaceGraph.{
  GraphNode, Workspace, not_a_permutation, keys, same_members, pick, reorder_nodes, insert_after,
  place_below, place_node_after_parent,
}
use ldaca_wordflow_backend.WorkspaceGraph.Edges.{parent_in}
use ldaca_wordflow_backend.WorkspaceGraph.Sound.{IsSound, IsAcyclic}

pub elem-keys {ℓ} : {V : Type ℓ} (k : ℕ) (d : Dict V) → elem k (keys d) ≡ contains k d
elem-keys k [] = refl
elem-keys k (e ∷ d) = ground (arith, elem-keys k d)

keys-IsDistinct {ℓ} : {V : Type ℓ} (d : Dict V) → IsUnique d → IsDistinct (keys d)
keys-IsDistinct [] u = tt
keys-IsDistinct (e ∷ d) u = ground (arith, keys-IsDistinct d u.1, elem-keys e.0 d)

all-elem : (f : ℕ → Bool) (k : ℕ) (xs : List ℕ) → all f xs ≡ true → elem k xs ≡ true → f k ≡ true
all-elem f k [] a e = absurd (ground arith)
all-elem f k (x ∷ xs) a e = elim (Bool-cases (k == x)) [
  | inl same ↦ let same' : k ≡ x = ground arith in rw same' (ground arith)
  | inr other ↦ all-elem f k xs (ground arith) (ground arith)
]

-- What the picked Data Blocks are.
lookup-pick :
    (k : ℕ) (ks : List ℕ) (nodes : Dict GraphNode)
    → lookup k (pick ks nodes) ≡ (if elem k ks then lookup k nodes else none)
lookup-pick k [] nodes = refl
lookup-pick k (j ∷ ks) nodes = elim (Option-cases (lookup j nodes)) [
  | inl missing ↦ rw (missing, pick) (ground (arith, lookup-pick k ks nodes, missing))
  | inr (n, found) ↦ rw (found, pick) (ground (arith, lookup-pick k ks nodes, found))
]

keys-pick :
    (ks : List ℕ) (nodes : Dict GraphNode)
    → ((k : ℕ) → elem k ks ≡ true → contains k nodes ≡ true)
    → keys (pick ks nodes) ≡ ks
keys-pick [] nodes h = refl
keys-pick (j ∷ ks) nodes h = elim (Option-cases (lookup j nodes)) [
  | inl missing ↦ absurd (ground (arith, h j, ==_refl j))
  | inr (n, found) ↦
      rw (found, pick) (ap (λ js. j ∷ js) (keys-pick ks nodes (λ k e. h k (ground arith))))
]

pick-IsUnique : (ks : List ℕ) (nodes : Dict GraphNode) → IsDistinct ks → IsUnique (pick ks nodes)
pick-IsUnique [] nodes d = tt
pick-IsUnique (j ∷ ks) nodes d = elim (Option-cases (lookup j nodes)) [
  | inl missing ↦ rw (missing, pick) (pick-IsUnique ks nodes d.1)
  | inr (n, found) ↦
      rw (found, pick) (ground (arith, lookup-pick j ks nodes, d.0), pick-IsUnique ks nodes d.1)
]

-- The same Data Blocks in an order.
pub record IsReordered (order : List ℕ) (g h : Workspace) : Type 0 where
  pub acyclic : IsAcyclic h
  pub ordered : keys h.nodes ≡ order
  pub nodes : (k : ℕ) → lookup k h.nodes ≡ lookup k g.nodes
  pub children : h.children_by_parent ≡ g.children_by_parent

same_nodes-IsSound :
    (rank : ℕ → ℕ) (g : Workspace) (nodes : Dict GraphNode)
    → IsSound rank g
    → IsUnique nodes
    → ((k : ℕ) → lookup k nodes ≡ lookup k g.nodes)
    → IsSound rank (record g { nodes = nodes })
same_nodes-IsSound rank g nodes v u same = record {
  unique = u;
  indexed = λ p. ground (arith, v.indexed p, same p);
  edges = λ c p. v.edges c p ∙ ap (parent_in p) (sym (same c));
  placed = λ k n e.
      let w = v.placed k n (sym (same k) ∙ e) in
      record {
        lineage = w.lineage;
        no_reference = w.no_reference;
        closed = λ p f. ground (arith, w.closed p f, same p);
        ranked = w.ranked;
      };
}

-- A distinct list of exactly the registered ids.
abbrev pub IsOrderOf : List ℕ → Workspace → Type 0
IsOrderOf order g = IsDistinct order × ((k : ℕ) → elem k order ≡ contains k g.nodes)

picked-IsReordered :
    (order : List ℕ) (g : Workspace)
    → IsAcyclic g
    → IsOrderOf order g
    → IsReordered order g (record g { nodes = pick order g.nodes })
picked-IsReordered order g (rank, v) o =
    let same = λ (k : ℕ). pick-lookup order g k (o.1 k) in
    record {
      acyclic = (
        rank,
        same_nodes-IsSound rank g (pick order g.nodes) v (pick-IsUnique order g.nodes o.0) same,
      );
      ordered = keys-pick order g.nodes (λ k e. ground (arith, o.1 k));
      nodes = same;
      children = refl;
    }
  where
    pick-lookup :
        (ks : List ℕ) (w : Workspace) (k : ℕ)
        → elem k ks ≡ contains k w.nodes
        → lookup k (pick ks w.nodes) ≡ lookup k w.nodes
    pick-lookup ks w k e = elim (Option-cases (lookup k w.nodes)) [
      | inl missing ↦ ground (arith, lookup-pick k ks w.nodes)
      | inr (n, found) ↦ ground (arith, lookup-pick k ks w.nodes)
    ]

IsDistinct-is_distinct : (xs : List ℕ) → IsDistinct xs → is_distinct xs ≡ true
IsDistinct-is_distinct [] d = refl
IsDistinct-is_distinct (x ∷ xs) d = ground (arith, IsDistinct-is_distinct xs d.1)

all_of_elem :
    (f : ℕ → Bool) (xs : List ℕ) → ((k : ℕ) → elem k xs ≡ true → f k ≡ true) → all f xs ≡ true
all_of_elem f [] h = refl
all_of_elem f (x ∷ xs) h =
    ground (arith, h x, ==_refl x, all_of_elem f xs (λ k e. h k (ground arith)))

same_members-iff_elem :
    (xs : List ℕ) (d : Dict GraphNode)
    → (same_members xs (keys d) ≡ true) ↔ ((k : ℕ) → elem k xs ≡ contains k d)
same_members-iff_elem xs d = (
  (λ e k. ground (
    arith,
    elem-keys k d,
    all-elem (λ x. elem x (keys d)) k xs,
    all-elem (λ y. elem y xs) k (keys d),
  )),
  λ h.
      let there : all (λ x. elem x (keys d)) xs ≡ true =
        all_of_elem (λ x. elem x (keys d)) xs (λ k e. ground (arith, h k, elem-keys k d)) in
      let back : all (λ y. elem y xs) (keys d) ≡ true =
        all_of_elem (λ y. elem y xs) (keys d) (λ k e. ground (arith, h k, elem-keys k d)) in
      ground arith,
)

-- In a Workspace with indexed, registered and acyclic lineage `reorder_nodes` puts the Data Blocks
-- in the given order, and keeps all else, if the list is one of exactly the registered ids without a
-- repetition; otherwise it refuses the list.
pub reorder_nodes-cases :
    (order : List ℕ) (g : Workspace)
    → IsAcyclic g
    → (IsOrderOf order g
        × ((h : Workspace) × (reorder_nodes order g ≡ ok h) × IsReordered order g h))
      ⊎ (¬ IsOrderOf order g × (reorder_nodes order g ≡ err not_a_permutation))
unfolding reorder_nodes
reorder_nodes-cases order g a =
    let members = same_members-iff_elem order g.nodes in
    elim (Bool-cases (is_distinct order && same_members order (keys g.nodes))) [
      | inl good ↦
          let o : IsOrderOf order g =
            (is_distinct-IsDistinct order (ground arith), members.0 (ground arith)) in
          inl (
            o,
            (record g { nodes = pick order g.nodes }, ground arith, picked-IsReordered order g a o),
          )
      | inr bad ↦
          inr ((λ o. ground (arith, IsDistinct-is_distinct order o.0, members.1 o.1)), ground arith)
    ]

-- Whether `node` stands right below the first `parent`.
abbrev pub heads : ℕ → List ℕ → Bool
heads node [] = false
heads node (k ∷ ks) = k == node

abbrev pub is_below : ℕ → ℕ → List ℕ → Bool
is_below parent node [] = false
is_below parent node (k ∷ ks) = if k == parent then heads node ks else is_below parent node ks

-- What an insertion below a parent gives.
pub record IsInserted (parent node : ℕ) (order placed : List ℕ) : Type 0 where
  pub below : is_below parent node placed ≡ true
  pub members : (k : ℕ) → elem k placed ≡ (k == node || elem k order)
  pub others : without node placed ≡ without node order
  pub distinct : IsDistinct placed

insert_after-IsInserted :
    (parent node : ℕ) (order : List ℕ)
    → elem parent order ≡ true
    → elem node order ≡ false
    → IsDistinct order
    → (placed : List ℕ) × (insert_after parent node order ≡ some placed)
      × IsInserted parent node order placed
insert_after-IsInserted parent node [] e f d = absurd (ground arith)
insert_after-IsInserted parent node (k ∷ order) e f d = elim (Bool-cases (k == parent)) [
  | inl here ↦ (
    k ∷ node ∷ order,
    ground arith,
    record {
      below = ground (arith, ==_refl node);
      members = λ j. ground arith;
      others = ground (arith, ==_refl node);
      distinct = ground arith;
    },
  )
  | inr later ↦
      let (placed, g, i) =
        insert_after-IsInserted parent node order (ground arith) (ground arith) d.1 in
      (
        k ∷ placed,
        ground arith,
        record {
          below = ground (arith, i.below);
          members = λ j. ground (arith, i.members j);
          others = ground (arith, i.others);
          distinct = ground (arith, i.members k, i.distinct);
        },
      )
]

without-without : (n : ℕ) (xs : List ℕ) → without n (without n xs) ≡ without n xs
without-without n [] = refl
without-without n (x ∷ xs) = ground (arith, without-without n xs)

reorder_nodes-ok :
    (order : List ℕ) (g : Workspace)
    → IsAcyclic g
    → IsOrderOf order g
    → (h : Workspace) × (reorder_nodes order g ≡ ok h) × IsReordered order g h
reorder_nodes-ok order g a o = elim (reorder_nodes-cases order g a) [
  | inl good ↦ good.1
  | inr bad ↦ absurd (bad.0 o)
]

-- A Data Block below its first parent, with all else as it was.
pub record IsMoved (parent node : ℕ) (g h : Workspace) : Type 0 where
  pub acyclic : IsAcyclic h
  pub below : is_below parent node (keys h.nodes) ≡ true
  pub others : without node (keys h.nodes) ≡ without node (keys g.nodes)
  pub nodes : (k : ℕ) → lookup k h.nodes ≡ lookup k g.nodes

placed_below :
    (node parent : ℕ) (parents placed : List ℕ) (g h : Workspace)
    → insert_after parent node (without node (keys g.nodes)) ≡ some placed
    → reorder_nodes placed g ≡ ok h
    → place_below node (parent ∷ parents) g ≡ ok h
placed_below node parent parents placed g h e f = rw (e, place_below) f

reordered-IsMoved :
    (parent node : ℕ) (placed : List ℕ) (g h : Workspace)
    → IsReordered placed g h
    → IsInserted parent node (without node (keys g.nodes)) placed
    → IsMoved parent node g h
reordered-IsMoved parent node placed g h r i = record {
  acyclic = r.acyclic;
  below = subst (λ ks. is_below parent node ks ≡ true) (sym r.ordered) i.below;
  others = ap (without node) r.ordered ∙ i.others ∙ without-without node (keys g.nodes);
  nodes = r.nodes;
}

-- In a Workspace with indexed, registered and acyclic lineage a Data Block with a parent can be placed:
-- it then stands right below its first parent, and the others keep their order and their lineage.
pub place_node_after_parent-IsMoved :
    (node : ℕ) (n : GraphNode) (parent : ℕ) (parents : List ℕ) (g : Workspace)
    → IsAcyclic g
    → lookup node g.nodes ≡ some n
    → n.parents ≡ parent ∷ parents
    → (h : Workspace) × (place_node_after_parent node g ≡ ok h) × IsMoved parent node g h
unfolding place_node_after_parent
place_node_after_parent-IsMoved node n parent parents g (rank, v) found e =
    let order = without node (keys g.nodes) in
    let w = v.placed node n found in
    let first : elem parent n.parents ≡ true = ground (arith, ==_refl parent) in
    let registered = w.closed parent first in
    let apart : (parent == node) ≡ false = ground (arith, w.ranked parent first) in
    let (placed, inserted, i) =
      insert_after-IsInserted parent node order
        (ground (arith, elem-without node parent (keys g.nodes), elem-keys parent g.nodes))
        (ground (arith, elem-without node node (keys g.nodes), ==_refl node))
        (without-IsDistinct node (keys g.nodes) (keys-IsDistinct g.nodes v.unique)) in
    let (h, reordered, r) =
      reorder_nodes-ok placed g (rank, v)
        (
          i.distinct,
          λ k.
              ground (
                arith,
                i.members k,
                elem-without node k (keys g.nodes),
                elem-keys k g.nodes,
                found,
              ),
        ) in
    (
      h,
      ground (arith, placed_below node parent parents placed g h inserted reordered),
      reordered-IsMoved parent node placed g h r i,
    )
