-- ===== src/WorkspaceAnalyses/Removal.antt =====
-- What `remove_analysis` of graph.py leaves.
use ldaca_wordflow_backend.Base.{
  ℕ, ◌≡◌, ap, ◌∙◌, true, false, not, ◌&&◌, some, List, ◌∷◌, elem, contains,
}
use ldaca_wordflow_backend.AnalysisRecord.Checks.{AnalysisRecord}
use ldaca_wordflow_backend.WorkspaceAnalyses.{
  Analyses, analysis_children, analysis_descendants, remove_analysis, removed, live_analysis_ids,
}
use ldaca_wordflow_backend.WorkspaceAnalyses.Tabs.{live-unlink_each}
use ldaca_wordflow_backend.WorkspaceAnalyses.Forest.{
  ids_of, AreDescendants, analysis_descendants-ends,
}
use ldaca_wordflow_backend.WorkspaceAnalyses.Descent.{AreBelow, analysis_descendants-AreBelow}
use ldaca_wordflow_backend.WorkspaceAnalyses.Changes.{contains-drop_keys, erase_each-drop_keys}
use ldaca_wordflow_backend.WorkspaceAnalyses.History.{IsSound, remove_analysis_found}

-- The state without an Analysis and its descendants `ds`.
pub record IsRemoved (id : ℕ) (w : Analyses) (ds : List AnalysisRecord) (v : Analyses)
    : Type 0 where
  pub ended : remove_analysis id w ≡ some v
  pub all_found : AreDescendants w.analyses (analysis_children id w.analyses) ds
  pub only_descendants : AreBelow (id ∷ ids_of ds) ds
  pub others_kept :
      (k : ℕ) → contains k v.analyses ≡ (contains k w.analyses && not (elem k (id ∷ ids_of ds)))
  pub unlisted :
      (k : ℕ) → elem k (id ∷ ids_of ds) ≡ true → elem k (live_analysis_ids v.tabs) ≡ false

-- In a sound state, `remove_analysis` of a stored Analysis ends. It takes out exactly that Analysis and
-- its descendants: the records that have it or another of them as parent, with all children of these.
-- No Tab lists one of them afterwards.
pub remove_analysis-IsRemoved :
    (id : ℕ) (w : Analyses)
    → IsSound w
    → contains id w.analyses ≡ true
    → (ds : List AnalysisRecord) × (v : Analyses) × (analysis_descendants id w.analyses ≡ some ds)
      × IsRemoved id w ds v
remove_analysis-IsRemoved id w s c =
    let (ds, e, h) = analysis_descendants-ends id w.analyses s.forest in
    let ids = id ∷ ids_of ds in
    (
      ds,
      removed id w ds,
      e,
      record {
        ended = remove_analysis_found id w ds c e;
        all_found = h;
        only_descendants = analysis_descendants-AreBelow id w.analyses ds e;
        others_kept = λ k.
            ap (contains k) (erase_each-drop_keys ids w.analyses s.forest)
            ∙ contains-drop_keys k ids w.analyses;
        unlisted = λ k i. live-unlink_each ids k w.tabs s.listed_once i;
      },
    )
