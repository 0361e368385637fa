-- ===== src/WorkspaceAnalyses/Descent.antt =====
-- `analysis_descendants` of graph.py finds nothing but descendants.
use ldaca_wordflow_backend.Base.{
  ℕ, zero, suc, ◌≡◌, arith, Bool, true, false, Option-cases, none, some, inl, inr, List, [], ◌∷◌,
  ◌++◌, length, subst, elem, elem-append, All, Dict,
}
use ldaca_wordflow_backend.AnalysisRecord.Checks.{AnalysisRecord}
use ldaca_wordflow_backend.WorkspaceAnalyses.{
  analysis_children, descend, double_each, analysis_descendants,
}
use ldaca_wordflow_backend.WorkspaceAnalyses.Forest.{ids_of}

abbrev pub has_parent_among : List ℕ → AnalysisRecord → Bool
has_parent_among ids a = elim a.lifecycle.parent_analysis_id [ none ↦ false | some p ↦ elem p ids ]

-- Every record of a list has its parent among some ids.
abbrev pub AreBelow : List ℕ → List AnalysisRecord → Type 0
AreBelow ids rs = All (λ r. has_parent_among ids r ≡ true) rs

AreBelow-weaken :
    (ids more : List ℕ) (rs : List AnalysisRecord)
    → ((k : ℕ) → elem k ids ≡ true → elem k more ≡ true)
    → AreBelow ids rs
    → AreBelow more rs
AreBelow-weaken ids more [] h b = tt
AreBelow-weaken ids more (r ∷ rs) h b = elim (Option-cases r.lifecycle.parent_analysis_id) [
  | inl e ↦ ground arith
  | inr (p, e) ↦ (ground (arith, h p), AreBelow-weaken ids more rs h b.1)
]

children-AreBelow :
    (k : ℕ) (ids : List ℕ) (d : Dict AnalysisRecord) → AreBelow (k ∷ ids) (analysis_children k d)
unfolding analysis_children
children-AreBelow k ids [] = tt
children-AreBelow k ids (e ∷ d) = ground (arith, children-AreBelow k ids d)

append-AreBelow :
    (ids : List ℕ) (rs ts : List AnalysisRecord)
    → AreBelow ids rs
    → AreBelow ids ts
    → AreBelow ids (rs ++ ts)
append-AreBelow ids [] ts h k = k
append-AreBelow ids (r ∷ rs) ts h k = (h.0, append-AreBelow ids rs ts h.1 k)

-- A step of the loop, with the records that the rest of it found.
descend_step :
    (ids : List ℕ) (c : AnalysisRecord) (pending ts : List AnalysisRecord)
    → AreBelow ids (c ∷ pending)
    → AreBelow ((c.lifecycle.id ∷ ids) ++ ids_of ts) ts
    → AreBelow (ids ++ ids_of (c ∷ ts)) (c ∷ ts)
descend_step ids c pending ts b tail =
    let all = ids ++ ids_of (c ∷ ts) in
    let here =
      AreBelow-weaken ids all (c ∷ []) (λ k h. ground (arith, elem-append k ids (ids_of (c ∷ ts))))
        (b.0, tt) in
    (
      here.0,
      AreBelow-weaken ((c.lifecycle.id ∷ ids) ++ ids_of ts) all ts
          (λ k h. ground (
            arith,
            elem-append k ids (ids_of (c ∷ ts)),
            elem-append k (c.lifecycle.id ∷ ids) (ids_of ts),
          ))
          tail,
    )

descend-AreBelow :
    (fuel : ℕ) (d : Dict AnalysisRecord) (ids : List ℕ) (pending ds : List AnalysisRecord)
    → AreBelow ids pending
    → descend fuel d pending ≡ some ds
    → AreBelow (ids ++ ids_of ds) ds
unfolding descend
descend-AreBelow fuel d ids [] ds b e =
    let same : [] ≡ ds = ground arith in subst (λ x. AreBelow (ids ++ ids_of x) x) same tt
descend-AreBelow zero d ids (c ∷ pending) ds b e = ground arith
descend-AreBelow (suc fuel) d ids (c ∷ pending) ds b e =
    elim (Option-cases (descend fuel d (analysis_children c.lifecycle.id d ++ pending))) [
      | inl f ↦ ground arith
      | inr (ts, f) ↦
          let id = c.lifecycle.id in
          let start =
            append-AreBelow (id ∷ ids) (analysis_children id d) pending (children-AreBelow id ids d)
              (AreBelow-weaken ids (id ∷ ids) pending (λ k h. ground arith) b.1) in
          let tail =
            descend-AreBelow fuel d (id ∷ ids) (analysis_children id d ++ pending) ts start f in
          let same : (c ∷ ts) ≡ ds = ground arith in
          subst (λ x. AreBelow (ids ++ ids_of x) x) same (descend_step ids c pending ts b tail)
    ]

-- What `analysis_descendants` gives has its parents there too, or the given Analysis as parent.
pub analysis_descendants-AreBelow :
    (id : ℕ) (d : Dict AnalysisRecord) (ds : List AnalysisRecord)
    → analysis_descendants id d ≡ some ds
    → AreBelow (id ∷ ids_of ds) ds
unfolding analysis_descendants
analysis_descendants-AreBelow id d ds e =
    descend-AreBelow (double_each (length d)) d (id ∷ []) (analysis_children id d) ds
      (children-AreBelow id [] d) e
