-- ===== src/AnalysisRecord/Checks.antt =====
-- The lifecycle of an Analysis in analysis.py, its record, and the tests of its validators.
use ldaca_wordflow_backend.Base.{
  ℕ, Bool, true, false, ◌&&◌, ◌||◌, not, Option, some, List, ◌++◌, map, elem, is_distinct, is_empty,
  ltb, leb, length, is_some, eq_bool, eq_option, Result, ◌>>◌, raise_if,
}
use ldaca_wordflow_backend.Text.{Text, codes, text_eq}
use ldaca_wordflow_backend.Background.{
  BackgroundState, is_terminal, is_queued, is_running, is_succeeded, is_failed, is_cancelled,
  Progress, Failure, is_complete, all_option, precedes, start_or_creation, is_valid_progress,
  is_valid_failure,
}
use ldaca_wordflow_backend.AnalysisRequest.Sources.{is_text_of, are_distinct_texts}
use ldaca_wordflow_backend.AnalysisRequest.{
  AnalysisRequest, annotation, concordance, quotation, is_valid_request,
}

pub data ExecutionScope : Type 0 where
  preview run_all supporting : ExecutionScope

pub record Artifact : Type 0 where
  pub name : Text
  pub relative_path : Text
  pub media_type : Option Text

-- `_AnalysisLifecycle`
pub record Lifecycle : Type 0 where
  pub id : ℕ
  pub tab_id : ℕ
  pub parent_analysis_id : Option ℕ
  pub execution_scope : ExecutionScope
  pub supersedes_analysis_ids : List ℕ
  pub request : AnalysisRequest
  pub state : BackgroundState
  pub progress : Progress
  pub cancellation_requested_at : Option ℕ
  pub error : Option Failure
  pub created_at : ℕ
  pub started_at : Option ℕ
  pub finished_at : Option ℕ
  pub revision : ℕ
  pub output_node_ids : List ℕ

-- The record beneath its Workspace; a query snapshot is its relative path.
pub record AnalysisRecord : Type 0 where
  pub lifecycle : Lifecycle
  pub result_payload : Option ℕ
  pub artifact_references : List Artifact
  pub query_snapshot : Option Text

pub data AnalysisError : Type 0 where
  invalid_request invalid_progress invalid_failure invalid_revision invalid_artifact : AnalysisError
  invalid_snapshot own_parent superseded_repeated finished_disagrees queued_started : AnalysisError
  not_started error_disagrees cancellation_missing incomplete_success complete_early : AnalysisError
  started_early cancelled_early finished_early result_disagrees early_artifacts : AnalysisError
  early_snapshot unsupported_snapshot snapshot_misplaced repeated_artifacts : AnalysisError
  repeated_outputs early_outputs not_queued not_running not_requested not_live : AnalysisError
  repeated_inputs : AnalysisError

-- The first tests of `validate_lifecycle`, on the identifiers.
abbrev pub check_identity : Lifecycle → Result AnalysisError (Unit {0})
check_identity r = do
  raise_if (eq_option r.parent_analysis_id (some r.id)) own_parent
  raise_if (elem r.id r.supersedes_analysis_ids || not (is_distinct r.supersedes_analysis_ids))
      superseded_repeated

-- Its tests that the state decides.
abbrev pub check_state : Lifecycle → Result AnalysisError (Unit {0})
check_state r = do
  raise_if (not (eq_bool (is_terminal r.state) (is_some r.finished_at))) finished_disagrees
  raise_if (is_queued r.state && is_some r.started_at) queued_started
  raise_if ((is_running r.state || is_succeeded r.state) && not (is_some r.started_at)) not_started
  raise_if (not (eq_bool (is_failed r.state) (is_some r.error))) error_disagrees
  raise_if (is_cancelled r.state && not (is_some r.cancellation_requested_at)) cancellation_missing
  raise_if (is_succeeded r.state && not (is_complete r.progress)) incomplete_success
  raise_if (not (is_succeeded r.state) && is_complete r.progress) complete_early

-- Its tests on the order of the timestamps.
abbrev pub check_times : Lifecycle → Result AnalysisError (Unit {0})
check_times r = do
  raise_if (precedes r.started_at r.created_at) started_early
  raise_if (precedes r.cancellation_requested_at r.created_at) cancelled_early
  raise_if (precedes r.finished_at (start_or_creation r.started_at r.created_at)) finished_early

unfoldable pub validate_lifecycle : Lifecycle → Result AnalysisError (Unit {0})
validate_lifecycle r = do check_identity r; check_state r; check_times r

-- `kind in {"annotation", "concordance", "quotation"}`
abbrev pub has_snapshot_kind : AnalysisRequest → Bool
has_snapshot_kind (annotation q) = true
has_snapshot_kind (concordance q) = true
has_snapshot_kind (quotation q) = true
has_snapshot_kind _ = false

abbrev pub is_valid_artifact : Artifact → Bool
is_valid_artifact a =
    is_text_of 500 a.name
    && is_text_of 1000 a.relative_path
    && all_option (λ t. leb (length t) 200) a.media_type

module _ (casefold : Text → Text) where
  unfoldable pub check_fields : Lifecycle → Result AnalysisError (Unit {0})
  check_fields r = do
    raise_if (not (is_valid_request casefold r.request)) invalid_request
    raise_if (not (is_valid_progress r.progress)) invalid_progress
    raise_if (not (all_option is_valid_failure r.error)) invalid_failure
    raise_if (ltb r.revision 1) invalid_revision

module _ (id_text : ℕ → Text) where
  abbrev pub expected_snapshot : ℕ → Text
  expected_snapshot id = codes "analyses/" ++ (id_text id ++ codes "/query-input")

  unfoldable pub validate_result : AnalysisRecord → Result AnalysisError (Unit {0})
  validate_result a = do
    raise_if (not (eq_bool (is_succeeded a.lifecycle.state) (is_some a.result_payload)))
        result_disagrees
    raise_if (not (is_succeeded a.lifecycle.state) && not (is_empty a.artifact_references))
        early_artifacts
    raise_if (not (is_succeeded a.lifecycle.state) && is_some a.query_snapshot) early_snapshot
    raise_if (is_some a.query_snapshot && not (has_snapshot_kind a.lifecycle.request))
        unsupported_snapshot
    raise_if
        (not
          (all_option (λ path. text_eq path (expected_snapshot a.lifecycle.id)) a.query_snapshot))
        snapshot_misplaced
    raise_if
        (not (are_distinct_texts (map (λ f. f.name) a.artifact_references))
          || not (are_distinct_texts (map (λ f. f.relative_path) a.artifact_references)))
        repeated_artifacts
    raise_if (not (is_distinct a.lifecycle.output_node_ids)) repeated_outputs
    raise_if (not (is_succeeded a.lifecycle.state) && not (is_empty a.lifecycle.output_node_ids))
        early_outputs
