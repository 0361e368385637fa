-- ===== src/WorkspaceGraph/Remove.antt =====
-- `remove_node` of graph.py: the lineage of the children is composed, and nothing can refuse it.
use ldaca_wordflow_backend.Base.{
  ℕ, ◌<◌, ◌≡◌, refl, sym, ap, subst, ◌∙◌, inl, inr, Bool, true, false, not, Option, none, some,
  List, [], ◌∷◌, arith, any, elem, All, ◌==◌, if◌then◌else◌, Dict, lookup, contains, insert, erase,
  lookup-insert, lookup-erase, insert-IsUnique, erase-IsUnique, IsUnique, ok, Option-cases,
}
use ldaca_wordflow_backend.Provenance.{Provenance, referenced_node_ids, replace_value}
use ldaca_wordflow_backend.Provenance.References.{
  elem-referenced_node_ids, mentions-replace_value, fresh-replace_value,
}
use ldaca_wordflow_backend.Provenance.Composition.{
  compose_provenance-ok, is_reference-replace_value,
}
use ldaca_wordflow_backend.WorkspaceGraph.{
  GraphNode, Workspace, or_empty, checked, compose_child, compose_children, replace_each, rebuilt,
  children_of, remove_node,
}
use ldaca_wordflow_backend.WorkspaceGraph.Edges.{has_edge}
use ldaca_wordflow_backend.WorkspaceGraph.Sound.{
  IsPlaced, ArePlaced, IsSound, IsAcyclic, rebuilt-IsSound,
}

-- A Data Block once a removed one is replaced by its lineage.
abbrev pub rewrite_node : ℕ → Provenance → GraphNode → GraphNode
rewrite_node t r m = record {
  parents = referenced_node_ids (replace_value t r m.provenance);
  provenance = replace_value t r m.provenance;
}

abbrev pub rewritten : ℕ → Provenance → Option GraphNode → Option GraphNode
rewritten t r none = none
rewritten t r (some m) = some (rewrite_node t r m)

any-elem :
    (f : ℕ → Bool) (xs : List ℕ) → ((p : ℕ) → elem p xs ≡ true → f p ≡ false) → any f xs ≡ false
any-elem f [] h = refl
any-elem f (x ∷ xs) h = ground (arith, h x, any-elem f xs (λ p e. h p (ground arith)))

module _ (rank : ℕ → ℕ) (g : Workspace) (v : IsSound rank g) (t : ℕ) (n : GraphNode)
    (found : lookup t g.nodes ≡ some n) where
  -- What a reference of a rewritten lineage is.
  rewritten_reference :
      (k : ℕ) (m : GraphNode) (p : ℕ)
      → lookup k g.nodes ≡ some m
      → elem p (referenced_node_ids (replace_value t n.provenance m.provenance)) ≡ true
      → ((p == t) ≡ false) × (contains p g.nodes ≡ true) × (rank p < rank k)
  rewritten_reference k m p e f =
      let w = v.placed k m e in
      let u = v.placed t n found in
      let own = ap (elem p) w.lineage ∙ elem-referenced_node_ids p m.provenance in
      let removed = ap (elem t) w.lineage ∙ elem-referenced_node_ids t m.provenance in
      let inherited = ap (elem p) u.lineage ∙ elem-referenced_node_ids p n.provenance in
      let either =
        elem-referenced_node_ids p (replace_value t n.provenance m.provenance)
        ∙ mentions-replace_value p t n.provenance m.provenance in
      (
        ground (arith, u.ranked p),
        ground (arith, w.closed p, u.closed p),
        ground (arith, w.ranked p, w.ranked t, u.ranked p),
      )

  checked-ok :
      (k : ℕ) (m : GraphNode)
      → lookup k g.nodes ≡ some m
      → checked k (erase t g.nodes) (replace_value t n.provenance m.provenance)
        ≡ ok (rewrite_node t n.provenance m)
  checked-ok k m e =
      let parents = referenced_node_ids (replace_value t n.provenance m.provenance) in
      let not_own : elem k parents ≡ false =
        ground (arith, λ (f : elem k parents ≡ true). (rewritten_reference k m k e f).2) in
      let survive : any (λ p. not (contains p (erase t g.nodes))) parents ≡ false =
        any-elem (λ p. not (contains p (erase t g.nodes))) parents
          (λ p f.
            ground (arith, rewritten_reference k m p e f, lookup-erase t p g.nodes v.unique)) in
      rw (not_own, survive) refl

  compose_child-ok :
      (k : ℕ) (m : GraphNode)
      → lookup k g.nodes ≡ some m
      → compose_child t n.provenance (erase t g.nodes) g.nodes k
        ≡ ok (rewrite_node t n.provenance m)
  unfolding compose_child
  compose_child-ok k m e =
      rw
        (
          e,
          compose_child,
          compose_provenance-ok m.provenance t n.provenance (v.placed k m e).no_reference,
        )
        (checked-ok k m e)

  -- The children that the removal rewrites.
  abbrev IsChild : ℕ → Type 0
  IsChild k = (m : GraphNode) × (lookup k g.nodes ≡ some m)

  -- What the replacements of `ks` make of a dict of Data Blocks.
  abbrev Replaces : List ℕ → List (ℕ × GraphNode) → Type 0
  Replaces ks cs =
      (d : Dict GraphNode)
      → IsUnique d
      → IsUnique (replace_each cs d)
        × ((k : ℕ)
            → lookup k (replace_each cs d)
              ≡ (if elem k ks then rewritten t n.provenance (lookup k g.nodes) else lookup k d))

  one-Replaces :
      (k : ℕ) (m : GraphNode) (ks : List ℕ) (cs : List (ℕ × GraphNode))
      → lookup k g.nodes ≡ some m
      → Replaces ks cs
      → Replaces (k ∷ ks) ((k, rewrite_node t n.provenance m) ∷ cs)
  one-Replaces k m ks cs e h d u =
      let new = rewrite_node t n.provenance m in
      let rest = h (insert k new d) (insert-IsUnique k new d u) in
      (rest.0, λ j. ground (arith, rest.1 j, lookup-insert k j new d))

  compose_children-ok :
      (ks : List ℕ)
      → All IsChild ks
      → (cs : List (ℕ × GraphNode)) × (compose_children t n.provenance (erase t g.nodes) g.nodes ks
          ≡ ok cs)
        × Replaces ks cs
  unfolding compose_children
  compose_children-ok [] a = ([], refl, λ d u. (u, λ k. refl))
  compose_children-ok (k ∷ ks) a =
      let (m, e) = a.0 in
      let (cs, f, h) = compose_children-ok ks a.1 in
      (
        (k, rewrite_node t n.provenance m) ∷ cs,
        rw (compose_child-ok k m e, f, compose_children) refl,
        one-Replaces k m ks cs e h,
      )

  children-IsChild :
      (ks : List ℕ) → ((k : ℕ) → elem k ks ≡ true → has_edge k t g.nodes ≡ true) → All IsChild ks
  children-IsChild [] h = tt
  children-IsChild (k ∷ ks) h = (
    elim (Option-cases (lookup k g.nodes)) [
      | inl missing ↦ absurd (ground (arith, h k))
      | inr (m, e) ↦ (m, e)
    ],
    children-IsChild ks (λ j e. h j (ground arith)),
  )

  -- A Data Block that is no child is not changed by the rewriting.
  rewritten_other :
      (k : ℕ)
      → has_edge k t g.nodes ≡ false
      → rewritten t n.provenance (lookup k g.nodes) ≡ lookup k g.nodes
  rewritten_other k e = go (lookup k g.nodes) refl
    where
      go : (o : Option GraphNode) → lookup k g.nodes ≡ o → rewritten t n.provenance o ≡ o
      go none f = refl
      go (some m) f =
          let w = v.placed k m f in
          let same = fresh-replace_value t n.provenance m.provenance (
            sym (elem-referenced_node_ids t m.provenance)
            ∙ ap (elem t) (sym w.lineage)
            ∙ ground arith) in
          ground (arith, same, w.lineage, ap referenced_node_ids same)

  abbrev remaining : List (ℕ × GraphNode) → Dict GraphNode
  remaining cs = erase t (replace_each cs g.nodes)

  lookup-remaining :
      (cs : List (ℕ × GraphNode))
      → Replaces (or_empty (lookup t g.children_by_parent)) cs
      → (k : ℕ)
      → lookup k (remaining cs)
        ≡ (if k == t then none else rewritten t n.provenance (lookup k g.nodes))
  lookup-remaining cs h k =
      let (unique, values) = h g.nodes v.unique in
      ground (
        arith,
        lookup-erase t k (replace_each cs g.nodes) unique,
        values k,
        v.edges k t,
        rewritten_other k,
      )

  contains-remaining :
      (cs : List (ℕ × GraphNode))
      → Replaces (or_empty (lookup t g.children_by_parent)) cs
      → (p : ℕ) → (p == t) ≡ false
      → contains p g.nodes ≡ true
      → contains p (remaining cs) ≡ true
  contains-remaining cs h p other registered = elim (Option-cases (lookup p g.nodes)) [
    | inl missing ↦ absurd (ground arith)
    | inr (m, f) ↦ ground (arith, lookup-remaining cs h p, ap (rewritten t n.provenance) f)
  ]

  remaining-ArePlaced :
      (cs : List (ℕ × GraphNode))
      → Replaces (or_empty (lookup t g.children_by_parent)) cs
      → ArePlaced rank (remaining cs)
  remaining-ArePlaced cs h k q e = elim (Option-cases (lookup k g.nodes)) [
    | inl missing ↦
        absurd (ground (arith, lookup-remaining cs h k, ap (rewritten t n.provenance) missing))
    | inr (m, f) ↦
        let same : rewrite_node t n.provenance m ≡ q =
          ground (arith, lookup-remaining cs h k, ap (rewritten t n.provenance) f) in
        subst (IsPlaced rank (remaining cs) k) same (record {
          lineage = refl;
          no_reference =
              is_reference-replace_value t n.provenance m.provenance (v.placed k m f).no_reference;
          closed = λ p i.
              let (other, registered, lower) = rewritten_reference k m p f i in
              contains-remaining cs h p other registered;
          ranked = λ p i. (rewritten_reference k m p f i).2;
        })
  ]

-- What the removal of a Data Block with a lineage gives.
pub record IsRemoved (t : ℕ) (n : GraphNode) (g h : Workspace) : Type 0 where
  pub acyclic : IsAcyclic h
  pub nodes :
      (k : ℕ)
      → lookup k h.nodes ≡ (if k == t then none else rewritten t n.provenance (lookup k g.nodes))

removed_found :
    (g : Workspace) (t : ℕ) (n : GraphNode) (cs : List (ℕ × GraphNode))
    → lookup t g.nodes ≡ some n
    → contains t g.children_by_parent ≡ true
    → compose_children t n.provenance
        (erase t g.nodes)
        g.nodes
        (or_empty (lookup t g.children_by_parent))
      ≡ ok cs
    → remove_node t g ≡ ok (true, rebuilt (erase t (replace_each cs g.nodes)))
unfolding remove_node children_of
removed_found g t n cs found indexed composed =
    elim (Option-cases (lookup t g.children_by_parent)) [
      | inl missing ↦ absurd (ground arith)
      | inr (ks, e) ↦
          let composed' : compose_children t n.provenance (erase t g.nodes) g.nodes ks ≡ ok cs =
            subst
              (λ ys.
                compose_children t n.provenance (erase t g.nodes) g.nodes (or_empty ys) ≡ ok cs)
              e composed in
          ground (arith, composed')
    ]

-- A Data Block of a Workspace with indexed, registered and acyclic lineage can always be removed; the
-- Workspace stays such a one, and each other Data Block has its lineage with the removed one replaced
-- by that one's own lineage, and the live references of it as its parents.
pub remove_node-IsRemoved :
    (g : Workspace) (t : ℕ) (n : GraphNode)
    → IsAcyclic g
    → lookup t g.nodes ≡ some n
    → (h : Workspace) × (remove_node t g ≡ ok (true, h)) × IsRemoved t n g h
unfolding remove_node children_of
remove_node-IsRemoved g t n (rank, v) found =
    let ks = or_empty (lookup t g.children_by_parent) in
    let children = children-IsChild rank g v t n found ks (λ k e. ground (arith, v.edges k t)) in
    let (cs, composed, h) = compose_children-ok rank g v t n found ks children in
    let nodes = remaining rank g v t n found cs in
    (
      rebuilt nodes,
      removed_found g t n cs found (ground (arith, v.indexed t)) composed,
      record {
        acyclic = (
          rank,
          rebuilt-IsSound rank nodes
              (erase-IsUnique t (replace_each cs g.nodes) (h g.nodes v.unique).0)
              (remaining-ArePlaced rank g v t n found cs h),
        );
        nodes = lookup-remaining rank g v t n found cs h;
      },
    )
