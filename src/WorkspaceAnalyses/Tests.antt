-- ===== src/WorkspaceAnalyses/Tests.antt =====
-- The theorems on the Tabs and Analyses of graph.py in a concrete Workspace.
use ldaca_wordflow_backend.Base.{ℕ, ◌≡◌, refl, Bool, true, Option, none, some, List, [], ◌∷◌}
use ldaca_wordflow_backend.Text.{codes}
use ldaca_wordflow_backend.Background.{queued}
use ldaca_wordflow_backend.AnalysisRequest.{AnalysisRequest, quotation, local}
use ldaca_wordflow_backend.AnalysisRecord.Checks.{AnalysisRecord, preview}
use ldaca_wordflow_backend.WorkspaceAnalyses.{
  Tab, Analyses, quotations, new_analyses, analysis_children, analysis_descendants, descend,
  double_each, remove_analysis, erase_each, unlink_each, unlink_analysis_id,
}
use ldaca_wordflow_backend.WorkspaceAnalyses.Forest.{AreDescendants, analysis_descendants-ends}
use ldaca_wordflow_backend.WorkspaceAnalyses.History.{
  IsSound, Op, adds_tab, adds_analysis, removes_analysis, run, run-IsSound,
}
use ldaca_wordflow_backend.WorkspaceAnalyses.Removal.{IsRemoved, remove_analysis-IsRemoved}

abbrev record_of : ℕ → Option ℕ → AnalysisRecord
record_of id parent = record {
  lifecycle = record {
    id = id;
    tab_id = 9;
    parent_analysis_id = parent;
    execution_scope = preview;
    supersedes_analysis_ids = [];
    request = quotation (record {
      node_id = 4;
      column = codes "text";
      engine = record { engine_type = local; engine_id = none };
    });
    state = queued;
    progress = record { fraction = some 0; message = none };
    cancellation_requested_at = none;
    error = none;
    created_at = 10;
    started_at = none;
    finished_at = none;
    revision = 1;
    output_node_ids = [];
  };
  result_payload = none;
  artifact_references = [];
  query_snapshot = none;
}

abbrev tab : Tab
tab = record {
  id = 9;
  kind = quotations;
  name = codes "Quotes";
  analysis_ids = 1 ∷ 2 ∷ 3 ∷ 4 ∷ [];
  annotation_correction_columns = [];
  stop_words = [];
  topic_modeling_words_per_topic = none;
  created_at = 5;
  modified_at = 5;
  revision = 1;
}

-- An Analysis with a child and a grandchild, and one beside them.
abbrev family : Analyses
family = record {
  tabs = (9, tab) ∷ [];
  analyses =
      (1, record_of 1 none)
      ∷ (2, record_of 2 (some 1))
      ∷ (3, record_of 3 (some 2))
      ∷ (4, record_of 4 none)
      ∷ [];
  corrupt = [];
}

family-IsSound : IsSound family
family-IsSound = record {
  forest = ((refl, refl, refl, (refl, refl, refl, (refl, refl, refl, (refl, refl, refl, tt)))));
  listed_once = ((refl, (refl, (refl, (refl, tt)))), tt);
}

found :
    analysis_descendants 1 family.analyses ≡ some (record_of 2 (some 1) ∷ record_of 3 (some 2) ∷ [])
unfolding analysis_descendants descend double_each analysis_children
found = refl

left_over :
    remove_analysis 1 family
    ≡ some (record {
      tabs = (9, record tab { analysis_ids = 4 ∷ [] }) ∷ [];
      analyses = (4, record_of 4 none) ∷ [];
      corrupt = [];
    })
unfolding remove_analysis analysis_descendants descend double_each analysis_children erase_each
    unlink_each unlink_analysis_id
left_over = refl

analysis_descendants-ends_example :
    (ds : List AnalysisRecord) × (analysis_descendants 1 family.analyses ≡ some ds)
    × AreDescendants family.analyses (analysis_children 1 family.analyses) ds
analysis_descendants-ends_example =
    analysis_descendants-ends 1 family.analyses family-IsSound.forest

remove_analysis-IsRemoved_example :
    (ds : List AnalysisRecord) × (v : Analyses) × (analysis_descendants 1 family.analyses ≡ some ds)
    × IsRemoved 1 family ds v
remove_analysis-IsRemoved_example = remove_analysis-IsRemoved 1 family family-IsSound refl

abbrev any_request : AnalysisRequest → AnalysisRequest → Bool
any_request q r = true

abbrev calls : List Op
calls =
    adds_analysis (record_of 1 none) true
    ∷ adds_tab (record tab { analysis_ids = [] })
    ∷ adds_analysis (record_of 2 (some 1)) true
    ∷ adds_analysis (record_of 5 (some 7)) true
    ∷ removes_analysis 1
    ∷ []

run-IsSound_example : (w : Analyses) × (run any_request calls new_analyses ≡ some w) × IsSound w
run-IsSound_example = run-IsSound any_request calls
