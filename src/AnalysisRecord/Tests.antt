-- ===== src/AnalysisRecord/Tests.antt =====
-- The theorems on the record of analysis.py at a concrete Analysis.
use ldaca_wordflow_backend.Base.{ℕ, ◌≡◌, refl, ◌↔◌, true, false, none, some, List, [], ◌∷◌, ok}
use ldaca_wordflow_backend.Text.{Text, codes}
use ldaca_wordflow_backend.Background.{
  queued, complete, is_complete, is_succeeded, is_valid_progress, is_safe_public_text,
}
use ldaca_wordflow_backend.AnalysisRequest.{
  AnalysisRequest, quotation, local, is_valid_request, is_valid_quotation,
}
use ldaca_wordflow_backend.AnalysisRecord.Checks.{
  AnalysisRecord, preview, validate_lifecycle, validate_result, check_fields,
}
use ldaca_wordflow_backend.AnalysisRecord.{valid, create, public_analysis, validate}
use ldaca_wordflow_backend.AnalysisRecord.Validation.{IsConsistent, validate_iff}
use ldaca_wordflow_backend.AnalysisRecord.Phases.{
  Op, starts, requests_cancellation, succeeds, run, begins, waiting, working, follow, happened,
  phase_of,
}
use ldaca_wordflow_backend.AnalysisRecord.Refinement.{SameAnalysis, run-follow}
use ldaca_wordflow_backend.AnalysisRecord.Enabled.{Happens, next-Happens}
use ldaca_wordflow_backend.AnalysisRecord.Public.{public_analysis_iff}

abbrev request : AnalysisRequest
request = quotation (record {
  node_id = 4;
  column = codes "text";
  engine = record { engine_type = local; engine_id = none };
})

abbrev same_text : Text → Text
same_text t = t

abbrev id_text : ℕ → Text
id_text id = codes "id"

abbrev fresh : AnalysisRecord
fresh = record {
  lifecycle = record {
    id = 1;
    tab_id = 2;
    parent_analysis_id = none;
    execution_scope = preview;
    supersedes_analysis_ids = [];
    request = request;
    state = queued;
    progress = record { fraction = some 0; message = some (codes "Queued") };
    cancellation_requested_at = none;
    error = none;
    created_at = 10;
    started_at = none;
    finished_at = none;
    revision = 1;
    output_node_ids = [];
  };
  result_payload = none;
  artifact_references = [];
  query_snapshot = none;
}

created : create same_text id_text request 2 preview 10 none [] 1 ≡ ok fresh
unfolding create validate is_valid_request is_valid_quotation validate_lifecycle validate_result
    check_fields is_valid_progress is_safe_public_text complete
created = refl

-- A start, a request to stop, and a success all the same.
abbrev calls : List Op
calls = starts 11 ∷ requests_cancellation 12 ∷ succeeds 13 7 [] [] none ∷ []

run-follow_example :
    IsConsistent same_text id_text (run same_text id_text calls fresh)
    × SameAnalysis fresh (run same_text id_text calls fresh)
    × (follow (happened same_text id_text calls fresh) (some waiting)
        ≡ some (phase_of (run same_text id_text calls fresh)))
run-follow_example = run-follow same_text id_text request 2 preview 10 none [] 1 calls created

fresh-IsConsistent : IsConsistent same_text id_text fresh
unfolding create
fresh-IsConsistent = ((validate_iff same_text id_text fresh fresh).0 created).1

next-Happens_example : Happens same_text id_text begins fresh (working false)
next-Happens_example = next-Happens same_text id_text begins fresh fresh-IsConsistent refl refl

fresh_progress-valid : is_valid_progress fresh.lifecycle.progress ≡ true
unfolding is_valid_progress is_safe_public_text complete
fresh_progress-valid = refl

public_analysis_iff_example :
    (public_analysis same_text fresh valid none
      ≡ ok (record { fields = fresh.lifecycle; integrity = valid }))
    ↔ ((is_complete fresh.lifecycle.progress ≡ is_succeeded fresh.lifecycle.state)
        × (fresh.lifecycle ≡ fresh.lifecycle)
        × (valid ≡ valid))
public_analysis_iff_example =
    public_analysis_iff same_text id_text fresh valid none
      (record { fields = fresh.lifecycle; integrity = valid }) fresh-IsConsistent refl
      fresh_progress-valid
