-- ===== src/AnalysisRecord.antt =====
-- src/ldaca_wordflow/domain/workspace/analysis.py: the durable lifecycle of one Analysis and its
-- public form. A method returns the new record or the error that it raises. Validation runs the field
-- constraints, then `validate_lifecycle`, then `validate_result`; a `Progress` or `Failure` that is
-- passed in was validated when it was made. The payload of a Result is opaque, `casefold` is Unicode's,
-- and `id_text` is the text of an identifier.
pub mod Checks
pub mod Phases
pub mod Public
mod Tests
pub mod Enabled
pub mod Refinement
pub mod Validation
use ldaca_wordflow_backend.Base.{
  ℕ, ◌+◌, Bool, true, ◌&&◌, ◌||◌, not, Option, none, some, List, [], all, is_distinct, is_empty,
  is_some, if◌then◌else◌, Result, ok, ◌>>◌, raise_if,
}
use ldaca_wordflow_backend.Text.{Text, codes}
use ldaca_wordflow_backend.Background.{
  queued, running, succeeded, failed, cancelled, is_queued, is_running, complete, Progress, Failure,
  all_option,
}
use ldaca_wordflow_backend.AnalysisRequest.Sources.{is_text_of}
use ldaca_wordflow_backend.AnalysisRequest.{AnalysisRequest}
use ldaca_wordflow_backend.AnalysisRecord.Checks.{
  ExecutionScope, Artifact, Lifecycle, AnalysisRecord, AnalysisError, validate_lifecycle,
  is_valid_artifact, check_fields, validate_result, invalid_artifact, invalid_snapshot, not_queued,
  not_running, not_requested, not_live, repeated_inputs,
}

module _ (casefold : Text → Text) (id_text : ℕ → Text) where
  -- `AnalysisRecord.model_validate`
  unfoldable pub validate : AnalysisRecord → Result AnalysisError AnalysisRecord
  validate a = do
    check_fields casefold a.lifecycle
    raise_if (not (all is_valid_artifact a.artifact_references)) invalid_artifact
    raise_if (not (all_option (is_text_of 1000) a.query_snapshot)) invalid_snapshot
    validate_lifecycle a.lifecycle
    validate_result id_text a
    ok a

  -- `_transition`: the changed record, one revision on.
  unfoldable pub transition : AnalysisRecord → Result AnalysisError AnalysisRecord
  transition a =
      validate (record a { lifecycle = record a.lifecycle { revision = a.lifecycle.revision + 1 } })

  unfoldable pub start : ℕ → AnalysisRecord → Result AnalysisError AnalysisRecord
  start timestamp a = do
    raise_if (not (is_queued a.lifecycle.state)) not_queued
    transition (record a {
      lifecycle = record a.lifecycle { state = running; started_at = some timestamp };
    })

  unfoldable pub cancel_queued : ℕ → AnalysisRecord → Result AnalysisError AnalysisRecord
  cancel_queued timestamp a = do
    raise_if (not (is_queued a.lifecycle.state)) not_queued
    transition (record a {
      lifecycle = record a.lifecycle {
        state = cancelled;
        cancellation_requested_at = some timestamp;
        finished_at = some timestamp;
      };
    })

  unfoldable pub request_running_cancellation :
      ℕ → AnalysisRecord → Result AnalysisError AnalysisRecord
  request_running_cancellation timestamp a = do
    raise_if (not (is_running a.lifecycle.state)) not_running
    if is_some a.lifecycle.cancellation_requested_at
        then ok a
        else transition (record a {
          lifecycle = record a.lifecycle { cancellation_requested_at = some timestamp };
        })

  unfoldable pub confirm_cancelled :
      ℕ → Progress → AnalysisRecord → Result AnalysisError AnalysisRecord
  confirm_cancelled timestamp progress a = do
    raise_if
        (not (is_running a.lifecycle.state) || not (is_some a.lifecycle.cancellation_requested_at))
        not_requested
    transition (record a {
      lifecycle = record a.lifecycle {
        state = cancelled;
        progress = progress;
        finished_at = some timestamp;
      };
    })

  unfoldable pub fail :
      ℕ → Failure → Progress → AnalysisRecord → Result AnalysisError AnalysisRecord
  fail timestamp failure progress a = do
    raise_if (not (is_queued a.lifecycle.state || is_running a.lifecycle.state)) not_live
    transition (record a {
      lifecycle = record a.lifecycle {
        state = failed;
        progress = progress;
        error = some failure;
        finished_at = some timestamp;
      };
    })

  unfoldable pub succeed :
      (timestamp payload : ℕ) (artifacts : List Artifact) (outputs : List ℕ)
      (snapshot : Option Text)
      → AnalysisRecord
      → Result AnalysisError AnalysisRecord
  succeed timestamp payload artifacts outputs snapshot a = do
    raise_if (not (is_running a.lifecycle.state)) not_running
    transition (record a {
      lifecycle = record a.lifecycle {
        state = succeeded;
        progress = record { fraction = some complete; message = some (codes "Complete") };
        output_node_ids = outputs;
        finished_at = some timestamp;
      };
      result_payload = some payload;
      artifact_references = artifacts;
      query_snapshot = snapshot;
    })

  unfoldable pub create :
      AnalysisRequest
      → (tab_id : ℕ) (scope : ExecutionScope) (timestamp : ℕ) (parent : Option ℕ)
        (superseded : List ℕ) (id : ℕ)
      → Result AnalysisError AnalysisRecord
  create request tab_id scope timestamp parent superseded id = validate (record {
    lifecycle = record {
      id = id;
      tab_id = tab_id;
      parent_analysis_id = parent;
      execution_scope = scope;
      supersedes_analysis_ids = superseded;
      request = request;
      state = queued;
      progress = record { fraction = some 0; message = some (codes "Queued") };
      cancellation_requested_at = none;
      error = none;
      created_at = timestamp;
      started_at = none;
      finished_at = none;
      revision = 1;
      output_node_ids = [];
    };
    result_payload = none;
    artifact_references = [];
    query_snapshot = none;
  })

-- `AnalysisIntegrity`: valid, or the inputs that are missing.
pub data Integrity : Type 0 where
  valid : Integrity
  invalid : (missing_input_ids : List ℕ) → Integrity

pub record Analysis : Type 0 where
  pub fields : Lifecycle
  pub integrity : Integrity

abbrev pub is_valid_integrity : Integrity → Bool
is_valid_integrity valid = true
is_valid_integrity (invalid ids) = not (is_empty ids) && is_distinct ids

abbrev pub progress_or : Option Progress → Progress → Progress
progress_or none p = p
progress_or (some q) p = q

-- The private fields are left out, the progress may be a later one.
unfoldable pub public_analysis :
    (Text → Text) → AnalysisRecord → Integrity → Option Progress → Result AnalysisError Analysis
public_analysis casefold a integrity progress =
    let fields = record a.lifecycle { progress = progress_or progress a.lifecycle.progress } in
    do
      check_fields casefold fields
      raise_if (not (is_valid_integrity integrity)) repeated_inputs
      validate_lifecycle fields
      ok (record { fields = fields; integrity = integrity })
