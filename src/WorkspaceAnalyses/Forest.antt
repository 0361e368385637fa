-- ===== src/WorkspaceAnalyses/Forest.antt =====
-- The Analyses of graph.py form a forest in which parents come first, and the loop of
-- `analysis_descendants` ends on it.
use ldaca_wordflow_backend.Base.{
  ℕ, zero, suc, ◌+◌, ◌≤◌, ◌<◌, ◌≡◌, refl, false≢true, Bool-cases, ==_iff, arith, Bool, true, false,
  none, some, inl, inr, List, [], ◌∷◌, ◌++◌, map, elem, length, ◌==◌, ==_refl, All, if◌then◌else◌,
  Dict,
}
use ldaca_wordflow_backend.AnalysisRecord.Checks.{AnalysisRecord}
use ldaca_wordflow_backend.WorkspaceAnalyses.{
  is_child_of, analysis_children, descend, double_each, analysis_descendants,
}

abbrev pub has_parent_in : List ℕ → AnalysisRecord → Bool
has_parent_in seen a = elim a.lifecycle.parent_analysis_id [ none ↦ true | some p ↦ elem p seen ]

-- Below the entries `seen`, each key is new and the id of its record, whose parent stands above it.
abbrev pub IsForest : List ℕ → Dict AnalysisRecord → Type 0
IsForest seen [] = Unit
IsForest seen (e ∷ d) =
    (e.0 ≡ e.1.lifecycle.id)
    × (elem e.0 seen ≡ false)
    × (has_parent_in seen e.1 ≡ true)
    × IsForest (e.0 ∷ seen) d

abbrev pub ids_of : List AnalysisRecord → List ℕ
ids_of rs = map (λ r. r.lifecycle.id) rs

-- Every record of a list has its id in another list.
abbrev pub AreIn : List ℕ → List AnalysisRecord → Type 0
AreIn ids rs = All (λ r. elem r.lifecycle.id ids ≡ true) rs

-- What children weigh: a record weighs more than all that stand below it.
abbrev children_weight : ℕ → Dict AnalysisRecord → ℕ
children_weight id [] = 0
children_weight id (e ∷ d) =
    (if is_child_of id e.1 then double_each (length d) else 0) + children_weight id d

abbrev weight : Dict AnalysisRecord → ℕ → ℕ
weight [] id = 0
weight (e ∷ d) id = let rest = weight d id in if e.0 == id then double_each (length d) else rest

abbrev total : Dict AnalysisRecord → List AnalysisRecord → ℕ
total d [] = 0
total d (r ∷ rs) = weight d r.lifecycle.id + total d rs

abbrev pub keys : Dict AnalysisRecord → List ℕ
keys d = map (λ e. e.0) d

children_weight_bounded :
    (id : ℕ) (d : Dict AnalysisRecord) → children_weight id d < double_each (length d)
unfolding double_each
children_weight_bounded id [] = omega arith
children_weight_bounded id (e ∷ d) = ground (arith, children_weight_bounded id d)

-- Keys are not seen above.
pub key-seen :
    (k : ℕ) (seen : List ℕ) (d : Dict AnalysisRecord)
    → IsForest seen d
    → elem k (keys d) ≡ true
    → elem k seen ≡ false
key-seen k seen [] f h = ground arith
key-seen k seen (e ∷ d) f h = ground (arith, key-seen k (e.0 ∷ seen) d f.3)

-- Nothing below is a child of what is not there.
weight-children :
    (id : ℕ) (seen : List ℕ) (d : Dict AnalysisRecord)
    → IsForest seen d
    → elem id (keys d) ≡ true
    → children_weight id d < weight d id
unfolding double_each
weight-children id seen [] f h = ground arith
weight-children id seen (e ∷ d) f h = ground (
  arith,
  weight-children id (e.0 ∷ seen) d f.3,
  children_weight_bounded id d,
  key-seen id (e.0 ∷ seen) d f.3,
)

pub AreIn-cons :
    (k : ℕ) (ids : List ℕ) (rs : List AnalysisRecord) → AreIn ids rs → AreIn (k ∷ ids) rs
AreIn-cons k ids [] h = tt
AreIn-cons k ids (r ∷ rs) h = ground (arith, AreIn-cons k ids rs h.1)

children-AreIn :
    (id : ℕ) (seen : List ℕ) (d : Dict AnalysisRecord)
    → IsForest seen d
    → AreIn (keys d) (analysis_children id d)
unfolding analysis_children
children-AreIn id seen [] f = tt
children-AreIn id seen (e ∷ d) f =
    let below =
      AreIn-cons e.0 (keys d) (analysis_children id d) (children-AreIn id (e.0 ∷ seen) d f.3) in
    ground (arith, below)

total-skip :
    (e : ℕ × AnalysisRecord) (d : Dict AnalysisRecord) (seen : List ℕ) (rs : List AnalysisRecord)
    → IsForest seen (e ∷ d)
    → AreIn (keys d) rs
    → total (e ∷ d) rs ≡ total d rs
total-skip e d seen [] f h = refl
total-skip e d seen (r ∷ rs) f h =
    ground (arith, total-skip e d seen rs f h.1, key-seen r.lifecycle.id (e.0 ∷ seen) d f.3)

-- The weight of the children, counted from the list of them.
total-children :
    (id : ℕ) (seen : List ℕ) (d : Dict AnalysisRecord)
    → IsForest seen d
    → total d (analysis_children id d) ≡ children_weight id d
unfolding analysis_children
total-children id seen [] f = refl
total-children id seen (e ∷ d) f =
    let skip =
      total-skip e d seen (analysis_children id d) f (children-AreIn id (e.0 ∷ seen) d f.3) in
    ground (arith, skip, total-children id (e.0 ∷ seen) d f.3, f.0, ==_refl e.0)

total-append :
    (d : Dict AnalysisRecord) (rs ts : List AnalysisRecord)
    → total d (rs ++ ts) ≡ total d rs + total d ts
total-append d [] ts = omega arith
total-append d (r ∷ rs) ts = omega (arith, total-append d rs ts)

-- Some record is found for each of a list, and each of these is there.
AreIn-append :
    (ids : List ℕ) (rs ts : List AnalysisRecord)
    → AreIn ids (rs ++ ts)
    → AreIn ids rs × AreIn ids ts
AreIn-append ids [] ts h = (tt, h)
AreIn-append ids (r ∷ rs) ts h = ground (arith, AreIn-append ids rs ts h.1)

append-AreIn :
    (ids : List ℕ) (rs ts : List AnalysisRecord)
    → AreIn ids rs
    → AreIn ids ts
    → AreIn ids (rs ++ ts)
append-AreIn ids [] ts h k = k
append-AreIn ids (r ∷ rs) ts h k = (h.0, append-AreIn ids rs ts h.1 k)

-- A collection that has the given records, and with each of its records the children.
pub record AreDescendants (d : Dict AnalysisRecord) (pending ds : List AnalysisRecord)
    : Type 0 where
  pub has_pending : AreIn (ids_of ds) pending
  pub has_children : (k : ℕ) → elem k (ids_of ds) ≡ true → AreIn (ids_of ds) (analysis_children k d)

descend-AreDescendants :
    (d : Dict AnalysisRecord) (c : AnalysisRecord) (pending ds : List AnalysisRecord)
    → AreDescendants d (analysis_children c.lifecycle.id d ++ pending) ds
    → AreDescendants d (c ∷ pending) (c ∷ ds)
descend-AreDescendants d c pending ds h =
    let ids = ids_of ds in
    let id = c.lifecycle.id in
    let (children, rest) = AreIn-append ids (analysis_children id d) pending h.has_pending in
    record {
      has_pending = (ground (arith, ==_refl id), AreIn-cons id ids pending rest);
      has_children = λ k e. elim (Bool-cases (k == id)) [
        | inl same ↦ rw ((==_iff k id).0 same) (AreIn-cons id ids (analysis_children id d) children)
        | inr other ↦ AreIn-cons id ids (analysis_children k d) (h.has_children k (ground arith))
      ];
    }

descend_found :
    (fuel : ℕ) (d : Dict AnalysisRecord) (c : AnalysisRecord) (pending ds : List AnalysisRecord)
    → descend fuel d (analysis_children c.lifecycle.id d ++ pending) ≡ some ds
    → descend (suc fuel) d (c ∷ pending) ≡ some (c ∷ ds)
unfolding descend
descend_found fuel d c pending ds e = rw (e, descend) refl

-- With fuel for the weight of what is pending the loop ends.
descend-ends :
    (fuel : ℕ) (d : Dict AnalysisRecord) (pending : List AnalysisRecord)
    → IsForest [] d
    → AreIn (keys d) pending
    → total d pending ≤ fuel
    → (ds : List AnalysisRecord) × (descend fuel d pending ≡ some ds) × AreDescendants d pending ds
unfolding descend
descend-ends fuel d [] f h b =
    ([], refl, record { has_pending = tt; has_children = λ k e. absurd (false≢true e) })
descend-ends zero d (c ∷ pending) f h b =
    let w = weight-children c.lifecycle.id [] d f h.0 in absurd (omega arith)
descend-ends (suc fuel) d (c ∷ pending) f h b =
    let id = c.lifecycle.id in
    let children = analysis_children id d in
    let w = weight-children id [] d f h.0 in
    let t = total-children id [] d f in
    let a = total-append d children pending in
    let (ds, e, s) =
      descend-ends fuel d (children ++ pending) f
        (append-AreIn (keys d) children pending (children-AreIn id [] d f) h.1) (omega arith) in
    (c ∷ ds, descend_found fuel d c pending ds e, descend-AreDescendants d c pending ds s)

-- On a forest `analysis_descendants` ends. It finds the children of the Analysis and with each that it
-- finds the children of that one.
pub analysis_descendants-ends :
    (id : ℕ) (d : Dict AnalysisRecord)
    → IsForest [] d
    → (ds : List AnalysisRecord) × (analysis_descendants id d ≡ some ds)
      × AreDescendants d (analysis_children id d) ds
unfolding analysis_descendants
analysis_descendants-ends id d f =
    let t = total-children id [] d f in
    let b = children_weight_bounded id d in
    descend-ends (double_each (length d)) d (analysis_children id d) f (children-AreIn id [] d f)
      (omega arith)
