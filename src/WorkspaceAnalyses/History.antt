-- ===== src/WorkspaceAnalyses/History.antt =====
-- Every history of Tabs and Analyses in a Workspace of graph.py.
use ldaca_wordflow_backend.Base.{
  ℕ, ◌≡◌, refl, ◌∙◌, arith, Bool, true, false, not, Bool-cases, Option-cases, Option, none, some,
  inl, inr, List, [], ◌∷◌, any, elem, is_distinct, is_distinct-IsDistinct, ◌==◌, ==_iff, split_if,
  All, eq_option, Dict, lookup, contains, insert,
}
use ldaca_wordflow_backend.AnalysisRequest.{AnalysisRequest}
use ldaca_wordflow_backend.AnalysisRecord.Checks.{AnalysisRecord}
use ldaca_wordflow_backend.WorkspaceAnalyses.{
  Tab, Analyses, Outcome, new_analyses, add_tab, remove_tab, add_analysis, add_corrupt_analysis,
  remove_analysis, replace_analysis, analysis_descendants, analysis_children, linked, link_found,
  replace_found, removed, remove_corrupt, exists_analysis, has_parent,
}
use ldaca_wordflow_backend.WorkspaceAnalyses.Tabs.{
  HasDistinctIds, insert-All, erase-All, lookup-All, unlink_analysis_id-All, unlink_each-All,
  linked-IsDistinct,
}
use ldaca_wordflow_backend.WorkspaceAnalyses.Forest.{
  IsForest, AreIn-cons, ids_of, keys, AreDescendants, analysis_descendants-ends,
}
use ldaca_wordflow_backend.WorkspaceAnalyses.Changes.{
  contains-keys, has_parent_in_either, insert_new-IsForest, insert_old-IsForest,
  erase_each-IsForest, IsClosed,
}

pub record IsSound (w : Analyses) : Type 0 where
  pub forest : IsForest [] w.analyses
  pub listed_once : All HasDistinctIds w.tabs

add_tab-IsSound : (t : Tab) (w : Analyses) → IsSound w → IsSound (add_tab t w).1
unfolding add_tab
add_tab-IsSound t w s =
    split_if (λ (o : Outcome). IsSound o.1) (contains t.id w.tabs) (λ e. s)
      (λ e.
        split_if (λ (o : Outcome). IsSound o.1) (not (is_distinct t.analysis_ids)) (λ f. s)
          (λ f.
            split_if (λ (o : Outcome). IsSound o.1)
              (any (λ e. any (λ i. elem i t.analysis_ids) e.1.analysis_ids) w.tabs) (λ g. s)
              (λ g. record {
                forest = s.forest;
                listed_once =
                    insert-All t.id t w.tabs (is_distinct-IsDistinct t.analysis_ids (ground arith))
                      s.listed_once;
              })))

has_parent-either :
    (a : AnalysisRecord) (d : Dict AnalysisRecord)
    → has_parent a d ≡ true
    → has_parent_in_either [] (keys d) a ≡ true
has_parent-either a d h = elim (Option-cases a.lifecycle.parent_analysis_id) [
  | inl e ↦ ground arith
  | inr (p, e) ↦ ground (arith, contains-keys p d)
]

stored-IsForest :
    (a : AnalysisRecord) (w : Analyses)
    → IsSound w
    → exists_analysis a.lifecycle.id w ≡ false
    → has_parent a w.analyses ≡ true
    → IsForest [] (insert a.lifecycle.id a w.analyses)
stored-IsForest a w s n p =
    insert_new-IsForest a [] w.analyses s.forest refl
      (ground (arith, contains-keys a.lifecycle.id w.analyses)) (has_parent-either a w.analyses p)

-- The record is stored whether or not its Tab is found.
link-IsSound :
    (a : AnalysisRecord) (w : Analyses) (tab : Option Tab)
    → IsSound w
    → lookup a.lifecycle.tab_id w.tabs ≡ tab
    → IsForest [] (insert a.lifecycle.id a w.analyses)
    → IsSound (link_found a w tab).1
link-IsSound a w none s e f = record { forest = f; listed_once = s.listed_once }
link-IsSound a w (some t) s e f = record {
  forest = f;
  listed_once =
      insert-All a.lifecycle.tab_id (linked a.lifecycle.id t) w.tabs
        (linked-IsDistinct a.lifecycle.id t
          (lookup-All a.lifecycle.tab_id w.tabs t s.listed_once e))
        s.listed_once;
}

add_analysis-IsSound :
    (a : AnalysisRecord) (link : Bool) (w : Analyses)
    → IsSound w
    → IsSound (add_analysis a link w).1
unfolding add_analysis
add_analysis-IsSound a link w s =
    split_if (λ (o : Outcome). IsSound o.1) (exists_analysis a.lifecycle.id w) (λ e. s)
      (λ e.
        split_if (λ (o : Outcome). IsSound o.1) (not (has_parent a w.analyses)) (λ f. s)
          (λ f.
            let forest = stored-IsForest a w s e (ground arith) in
            split_if (λ (o : Outcome). IsSound o.1) (not link)
              (λ g. record { forest = forest; listed_once = s.listed_once })
              (λ g. link-IsSound a w (lookup a.lifecycle.tab_id w.tabs) s refl forest)))

add_corrupt_analysis-IsSound :
    (id content : ℕ) (w : Analyses) → IsSound w → IsSound (add_corrupt_analysis id content w).1
unfolding add_corrupt_analysis
add_corrupt_analysis-IsSound id content w s =
    split_if (λ (o : Outcome). IsSound o.1) (exists_analysis id w) (λ e. s)
      (λ e. record { forest = s.forest; listed_once = s.listed_once })

remove_tab-IsSound : (id : ℕ) (w : Analyses) → IsSound w → IsSound (remove_tab id w)
unfolding remove_tab
remove_tab-IsSound id w s = record {
  forest = s.forest;
  listed_once = erase-All id w.tabs s.listed_once;
}

module _ (same_request : AnalysisRequest → AnalysisRequest → Bool) where
  replace_found-IsSound :
      (a : AnalysisRecord) (w : Analyses) (previous : Option AnalysisRecord)
      → IsSound w
      → lookup a.lifecycle.id w.analyses ≡ previous
      → IsSound (replace_found same_request a w previous).1
  replace_found-IsSound a w none s e = s
  replace_found-IsSound a w (some previous) s e =
      let same = eq_option previous.lifecycle.parent_analysis_id a.lifecycle.parent_analysis_id in
      split_if (λ (o : Outcome). IsSound o.1) (not same) (λ g. s)
        (λ g.
          split_if (λ (o : Outcome). IsSound o.1)
            (not (same_request previous.lifecycle.request a.lifecycle.request)) (λ f. s)
            (λ f. record {
              forest = insert_old-IsForest a previous [] w.analyses s.forest e (ground arith);
              listed_once = s.listed_once;
            }))

  replace_analysis-IsSound :
      (a : AnalysisRecord) (w : Analyses)
      → IsSound w
      → IsSound (replace_analysis same_request a w).1
  unfolding replace_analysis
  replace_analysis-IsSound a w s =
      replace_found-IsSound a w (lookup a.lifecycle.id w.analyses) s refl

-- An Analysis with its descendants is closed.
pub descendants-IsClosed :
    (id : ℕ) (d : Dict AnalysisRecord) (ds : List AnalysisRecord)
    → AreDescendants d (analysis_children id d) ds
    → IsClosed (id ∷ ids_of ds) d
descendants-IsClosed id d ds h k e =
    AreIn-cons id (ids_of ds) (analysis_children k d) (elim (Bool-cases (k == id)) [
      | inl same ↦ rw ((==_iff k id).0 same) h.has_pending
      | inr other ↦ h.has_children k (ground arith)
    ])

-- The end of `remove_analysis`, with the descendants that it found.
pub removed-IsSound :
    (id : ℕ) (w : Analyses) (ds : List AnalysisRecord)
    → IsSound w
    → AreDescendants w.analyses (analysis_children id w.analyses) ds
    → IsSound (removed id w ds)
removed-IsSound id w ds s h = record {
  forest =
      erase_each-IsForest (id ∷ ids_of ds) w.analyses s.forest
        (descendants-IsClosed id w.analyses ds h);
  listed_once = unlink_each-All (id ∷ ids_of ds) w.tabs s.listed_once;
}

remove_corrupt-IsSound : (id : ℕ) (w : Analyses) → IsSound w → IsSound (remove_corrupt id w)
remove_corrupt-IsSound id w s =
    split_if IsSound (contains id w.corrupt)
      (λ e. record {
        forest = s.forest;
        listed_once = unlink_analysis_id-All id w.tabs s.listed_once;
      })
      (λ e. s)

pub remove_analysis_found :
    (id : ℕ) (w : Analyses) (ds : List AnalysisRecord)
    → contains id w.analyses ≡ true
    → analysis_descendants id w.analyses ≡ some ds
    → remove_analysis id w ≡ some (removed id w ds)
unfolding remove_analysis
remove_analysis_found id w ds c e = ground arith

remove_analysis_missing :
    (id : ℕ) (w : Analyses)
    → contains id w.analyses ≡ false
    → remove_analysis id w ≡ some (remove_corrupt id w)
unfolding remove_analysis
remove_analysis_missing id w c = ground arith

remove_analysis-IsSound :
    (id : ℕ) (w : Analyses)
    → IsSound w
    → (v : Analyses) × (remove_analysis id w ≡ some v) × IsSound v
remove_analysis-IsSound id w s =
    let (ds, e, h) = analysis_descendants-ends id w.analyses s.forest in
    elim (Bool-cases (contains id w.analyses)) [
      | inl y ↦ (removed id w ds, remove_analysis_found id w ds y e, removed-IsSound id w ds s h)
      | inr n ↦ (remove_corrupt id w, remove_analysis_missing id w n, remove_corrupt-IsSound id w s)
    ]

-- The calls of the methods that change Tabs and Analyses.
pub data Op : Type 0 where
  adds_tab : Tab → Op
  removes_tab : ℕ → Op
  adds_analysis : AnalysisRecord → (link_to_tab : Bool) → Op
  adds_corrupt : (id content : ℕ) → Op
  removes_analysis : ℕ → Op
  replaces_analysis : AnalysisRecord → Op

module _ (same_request : AnalysisRequest → AnalysisRequest → Bool) where
  unfoldable pub apply : Op → Analyses → Option Analyses
  apply (adds_tab t) w = some (add_tab t w).1
  apply (removes_tab id) w = some (remove_tab id w)
  apply (adds_analysis a link) w = some (add_analysis a link w).1
  apply (adds_corrupt id content) w = some (add_corrupt_analysis id content w).1
  apply (removes_analysis id) w = remove_analysis id w
  apply (replaces_analysis a) w = some (replace_analysis same_request a w).1

  unfoldable pub run : List Op → Analyses → Option Analyses
  run [] w = some w
  run (op ∷ ops) w = elim (apply op w) [ none ↦ none | some v ↦ run ops v ]

  apply-IsSound :
      (op : Op) (w : Analyses) → IsSound w → (v : Analyses) × (apply op w ≡ some v) × IsSound v
  unfolding apply
  apply-IsSound (adds_tab t) w s = (_, refl, add_tab-IsSound t w s)
  apply-IsSound (removes_tab id) w s = (_, refl, remove_tab-IsSound id w s)
  apply-IsSound (adds_analysis a link) w s = (_, refl, add_analysis-IsSound a link w s)
  apply-IsSound (adds_corrupt id content) w s =
      (_, refl, add_corrupt_analysis-IsSound id content w s)
  apply-IsSound (removes_analysis id) w s = remove_analysis-IsSound id w s
  apply-IsSound (replaces_analysis a) w s = (_, refl, replace_analysis-IsSound same_request a w s)

  run_after :
      (op : Op) (ops : List Op) (w v : Analyses)
      → apply op w ≡ some v
      → run (op ∷ ops) w ≡ run ops v
  unfolding run
  run_after op ops w v e = rw (e, run) refl

  run_from-IsSound :
      (ops : List Op) (w : Analyses) → IsSound w → (v : Analyses) × (run ops w ≡ some v) × IsSound v
  unfolding run
  run_from-IsSound [] w s = (w, refl, s)
  run_from-IsSound (op ∷ ops) w s =
      let (v, e, t) = apply-IsSound op w s in
      let (u, f, r) = run_from-IsSound ops v t in (u, run_after op ops w v e ∙ f, r)

  -- Every history of a new Workspace ends: no method runs on for ever. In the state that it leaves the
  -- Analyses are a forest in which each stands under its own id, once, and after its parent; and no Tab
  -- lists an Analysis twice.
  pub run-IsSound : (ops : List Op) → (w : Analyses) × (run ops new_analyses ≡ some w) × IsSound w
  run-IsSound ops = run_from-IsSound ops new_analyses (record { forest = tt; listed_once = tt })
