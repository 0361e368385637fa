-- ===== src/AnalysisRecord/Validation.antt =====
-- What a validated Analysis of analysis.py looks like.
use ldaca_wordflow_backend.Base.{
  ℕ, ◌≤◌, ◌≡◌, refl, ◌↔◌, true, false, not, ◌||◌, some, all, map, elem, is_distinct, is_empty,
  arith, is_some, eq_option, ok, ◌>>◌, >>-eq-ok,
}
use ldaca_wordflow_backend.Text.{Text, text_eq}
use ldaca_wordflow_backend.Background.{
  BackgroundState, queued, running, succeeded, failed, cancelled, is_complete, is_succeeded,
  all_option, is_valid_progress, is_valid_failure, precedes, start_or_creation,
}
use ldaca_wordflow_backend.AnalysisRequest.{is_valid_request}
use ldaca_wordflow_backend.AnalysisRequest.Sources.{is_text_of, are_distinct_texts}
use ldaca_wordflow_backend.AnalysisRecord.Checks.{
  Lifecycle, AnalysisRecord, check_identity, check_state, check_times, check_fields,
  validate_lifecycle, validate_result, expected_snapshot, has_snapshot_kind, is_valid_artifact,
}
use ldaca_wordflow_backend.AnalysisRecord.{validate}

-- The fields that an Analysis has before it has ended.
abbrev pub IsLive : Lifecycle → Type 0
IsLive r =
    (is_some r.finished_at ≡ false) × (is_some r.error ≡ false) × (is_complete r.progress ≡ false)

-- Which fields it has in each state.
abbrev pub Shape : BackgroundState → Lifecycle → Type 0
Shape queued r = (is_some r.started_at ≡ false) × IsLive r
Shape running r = (is_some r.started_at ≡ true) × IsLive r
Shape succeeded r =
    (is_some r.started_at ≡ true)
    × (is_some r.finished_at ≡ true)
    × (is_some r.error ≡ false)
    × (is_complete r.progress ≡ true)
Shape failed r =
    (is_some r.finished_at ≡ true) × (is_some r.error ≡ true) × (is_complete r.progress ≡ false)
Shape cancelled r =
    (is_some r.finished_at ≡ true)
    × (is_some r.cancellation_requested_at ≡ true)
    × (is_some r.error ≡ false)
    × (is_complete r.progress ≡ false)

-- Its identifiers and the order of its timestamps.
pub record IsOrdered (r : Lifecycle) : Type 0 where
  pub other_parent : eq_option r.parent_analysis_id (some r.id) ≡ false
  pub others_superseded : elem r.id r.supersedes_analysis_ids ≡ false
  pub superseded_once : is_distinct r.supersedes_analysis_ids ≡ true
  pub started_after : precedes r.started_at r.created_at ≡ false
  pub cancelled_after : precedes r.cancellation_requested_at r.created_at ≡ false
  pub finished_after : precedes r.finished_at (start_or_creation r.started_at r.created_at) ≡ false

check_state-Shape :
    (s : BackgroundState) (r : Lifecycle) → r.state ≡ s → (check_state r ≡ ok tt) ↔ Shape s r
check_state-Shape queued r e = ground arith
check_state-Shape running r e = ground arith
check_state-Shape succeeded r e = ground arith
check_state-Shape failed r e = ground arith
check_state-Shape cancelled r e = ground arith

checks-IsOrdered :
    (r : Lifecycle) → ((check_identity r ≡ ok tt) × (check_times r ≡ ok tt)) ↔ IsOrdered r
checks-IsOrdered r = ground arith

pub validate_lifecycle_iff :
    (r : Lifecycle) → (validate_lifecycle r ≡ ok tt) ↔ (Shape r.state r × IsOrdered r)
unfolding validate_lifecycle
validate_lifecycle_iff r =
    let state = check_state-Shape r.state r refl in
    let order = checks-IsOrdered r in
    let sequence = >>-eq-ok (check_identity r) (check_state r >> check_times r) {w = tt} in
    let rest = >>-eq-ok (check_state r) (check_times r) {w = tt} in
    (
      (λ e.
          let (first, later) = sequence.0 e in
          let (second, third) = rest.0 later in (state.0 second, order.0 (first, third))),
      λ h. let (first, third) = order.1 h.1 in sequence.1 (first, rest.1 (state.1 h.0, third)),
    )

module _ (casefold : Text → Text) where
  pub record HasValidFields (r : Lifecycle) : Type 0 where
    pub request_valid : is_valid_request casefold r.request ≡ true
    pub progress_valid : is_valid_progress r.progress ≡ true
    pub error_valid : all_option is_valid_failure r.error ≡ true
    pub revised : 1 ≤ r.revision

  pub check_fields_iff : (r : Lifecycle) → (check_fields casefold r ≡ ok tt) ↔ HasValidFields r
  unfolding check_fields
  check_fields_iff r = ground arith

module _ (id_text : ℕ → Text) where
  -- A Result is published exactly with success, and its parts are named once.
  pub record IsPublished (a : AnalysisRecord) : Type 0 where
    pub artifacts_valid : all is_valid_artifact a.artifact_references ≡ true
    pub snapshot_valid : all_option (is_text_of 1000) a.query_snapshot ≡ true
    pub with_success : is_some a.result_payload ≡ is_succeeded a.lifecycle.state
    pub artifacts_late : (is_succeeded a.lifecycle.state || is_empty a.artifact_references) ≡ true
    pub snapshot_late : (is_succeeded a.lifecycle.state || not (is_some a.query_snapshot)) ≡ true
    pub snapshot_supported :
        (not (is_some a.query_snapshot) || has_snapshot_kind a.lifecycle.request) ≡ true
    pub snapshot_placed :
        all_option
          (λ path. text_eq path (expected_snapshot id_text a.lifecycle.id))
          a.query_snapshot
        ≡ true
    pub names_once : are_distinct_texts (map (λ f. f.name) a.artifact_references) ≡ true
    pub paths_once : are_distinct_texts (map (λ f. f.relative_path) a.artifact_references) ≡ true
    pub outputs_once : is_distinct a.lifecycle.output_node_ids ≡ true
    pub outputs_late :
        (is_succeeded a.lifecycle.state || is_empty a.lifecycle.output_node_ids) ≡ true

  checks-IsPublished :
      (a : AnalysisRecord)
      → ((all is_valid_artifact a.artifact_references ≡ true)
          × (all_option (is_text_of 1000) a.query_snapshot ≡ true)
          × (validate_result id_text a ≡ ok tt))
        ↔ IsPublished a
  unfolding validate_result
  checks-IsPublished a = ground arith

module _ (casefold : Text → Text) (id_text : ℕ → Text) where
  pub record IsConsistent (a : AnalysisRecord) : Type 0 where
    pub fields : HasValidFields casefold a.lifecycle
    pub shape : Shape a.lifecycle.state a.lifecycle
    pub ordered : IsOrdered a.lifecycle
    pub published : IsPublished id_text a

  -- The tests of `validate`, one after the other.
  checks_iff :
      (a b : AnalysisRecord)
      → (validate casefold id_text a ≡ ok b) ↔ (
          (check_fields casefold a.lifecycle ≡ ok tt)
          × (all is_valid_artifact a.artifact_references ≡ true)
          × (all_option (is_text_of 1000) a.query_snapshot ≡ true)
          × (validate_lifecycle a.lifecycle ≡ ok tt)
          × (validate_result id_text a ≡ ok tt)
          × (b ≡ a))
  unfolding validate
  checks_iff a b = ground arith

  -- Validation succeeds exactly on a consistent record, and returns it unchanged.
  pub validate_iff :
      (a b : AnalysisRecord) → (validate casefold id_text a ≡ ok b) ↔ ((b ≡ a) × IsConsistent a)
  validate_iff a b =
      let checks = checks_iff a b in
      let fields = check_fields_iff casefold a.lifecycle in
      let lifecycle = validate_lifecycle_iff a.lifecycle in
      let published = checks-IsPublished id_text a in
      (
        (λ e.
            let (f, artifacts, snapshot, l, r, same) = checks.0 e in
            let (shape, ordered) = lifecycle.0 l in
            (
              same,
              record {
                fields = fields.0 f;
                shape = shape;
                ordered = ordered;
                published = published.0 (artifacts, snapshot, r);
              },
            )),
        λ h.
            let v = h.1 in
            let (artifacts, snapshot, r) = published.1 v.published in
            checks.1
              (fields.1 v.fields, artifacts, snapshot, lifecycle.1 (v.shape, v.ordered), r, h.0),
      )
