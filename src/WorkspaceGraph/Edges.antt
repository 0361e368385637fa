-- ===== src/WorkspaceGraph/Edges.antt =====
-- The children's index of graph.py, edge by edge.
use ldaca_wordflow_backend.Base.{
  ℕ, ◌≡◌, refl, Bool, true, false, ◌&&◌, ◌||◌, Option, none, some, List, [], ◌∷◌, ◌++◌, arith, elem,
  elem-append, ◌==◌, Dict, lookup, contains, lookup-insert, IsUnique, Option-cases, inl, inr,
}
use ldaca_wordflow_backend.WorkspaceGraph.{
  GraphNode, or_empty, append_child, attach, empty_index, attach_all,
}

-- Whether `c` is entered as a child of `p`.
abbrev pub is_child : ℕ → ℕ → Dict (List ℕ) → Bool
is_child c p index = elem c (or_empty (lookup p index))

-- Whether `c` names `p` as a parent.
abbrev pub parent_in : ℕ → Option GraphNode → Bool
parent_in p none = false
parent_in p (some n) = elem p n.parents

abbrev pub has_edge : ℕ → ℕ → Dict GraphNode → Bool
has_edge c p nodes = parent_in p (lookup c nodes)

is_child-append_child :
    (c p child parent : ℕ) (index : Dict (List ℕ))
    → is_child c p (append_child child parent index)
      ≡ (is_child c p index || (p == parent && (contains p index && c == child)))
is_child-append_child c p child parent index = elim (Option-cases (lookup parent index)) [
  | inl missing ↦ rw (missing, append_child) (ground (arith, missing))
  | inr (cs, found) ↦
      rw (found, append_child)
        (ground (
          arith,
          found,
          lookup-insert parent p (cs ++ child ∷ []) index,
          elem-append c cs (child ∷ []),
        ))
]

contains-append_child :
    (p child parent : ℕ) (index : Dict (List ℕ))
    → contains p (append_child child parent index) ≡ contains p index
contains-append_child p child parent index = elim (Option-cases (lookup parent index)) [
  | inl missing ↦ rw (missing, append_child) refl
  | inr (cs, found) ↦
      rw (found, append_child)
        (ground (arith, found, lookup-insert parent p (cs ++ child ∷ []) index))
]

pub contains-attach :
    (p child : ℕ) (parents : List ℕ) (index : Dict (List ℕ))
    → contains p (attach child parents index) ≡ contains p index
contains-attach p child [] index = refl
contains-attach p child (parent ∷ parents) index = ground (
  arith,
  contains-attach p child parents (append_child child parent index),
  contains-append_child p child parent index,
)

pub is_child-attach :
    (c p child : ℕ) (parents : List ℕ) (index : Dict (List ℕ))
    → is_child c p (attach child parents index)
      ≡ (is_child c p index || (elem p parents && (contains p index && c == child)))
is_child-attach c p child [] index = ground arith
is_child-attach c p child (parent ∷ parents) index = ground (
  arith,
  is_child-attach c p child parents (append_child child parent index),
  contains-append_child p child parent index,
  is_child-append_child c p child parent index,
)

pub contains-attach_all :
    (p : ℕ) (nodes : Dict GraphNode) (index : Dict (List ℕ))
    → contains p (attach_all nodes index) ≡ contains p index
contains-attach_all p [] index = refl
contains-attach_all p (e ∷ nodes) index = ground (
  arith,
  contains-attach_all p nodes (attach e.0 e.1.parents index),
  contains-attach p e.0 e.1.parents index,
)

pub is_child-attach_all :
    (c p : ℕ) (nodes : Dict GraphNode) (index : Dict (List ℕ))
    → IsUnique nodes
    → contains p index ≡ true
    → is_child c p (attach_all nodes index) ≡ (is_child c p index || has_edge c p nodes)
is_child-attach_all c p [] index u k = ground arith
is_child-attach_all c p (e ∷ nodes) index u k = ground (
  arith,
  is_child-attach_all c p nodes (attach e.0 e.1.parents index) u.1,
  contains-attach p e.0 e.1.parents index,
  is_child-attach c p e.0 e.1.parents index,
)

pub contains-empty_index :
    (p : ℕ) (nodes : Dict GraphNode) → contains p (empty_index nodes) ≡ contains p nodes
contains-empty_index p [] = refl
contains-empty_index p (e ∷ nodes) = ground (arith, contains-empty_index p nodes)

pub is_child-empty_index :
    (c p : ℕ) (nodes : Dict GraphNode) → is_child c p (empty_index nodes) ≡ false
is_child-empty_index c p [] = refl
is_child-empty_index c p (e ∷ nodes) = ground (arith, is_child-empty_index c p nodes)
