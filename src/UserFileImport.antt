-- ===== src/UserFileImport.antt =====
-- src/ldaca_wordflow/domain/user_file_import.py: the durable lifecycle of one remote User File
-- import. A method returns the new record or the error that it raises. Identifiers and aware
-- datetimes are numbers. `model_validate` runs the field constraints and then `validate_lifecycle`;
-- a `Progress`, `Failure` or result instance that is passed in was validated when it was made, so
-- validating it once more changes nothing. pydantic's whitespace trimming is a parameter.
pub mod Consistency
pub mod Transitions
pub mod History
mod Tests
use ldaca_wordflow_backend.Base.{
  ℕ, ◌+◌, Bool, true, false, ◌&&◌, ◌||◌, not, Option, none, some, List, [], ◌∷◌, ltb, leb, ◌==◌,
  length, is_some, eq_bool, if◌then◌else◌, Result, ok, err, ◌>>=◌, ◌>>◌, raise_if,
}
use ldaca_wordflow_backend.Text.{Text, codes, text_eq, join, UnicodeData}
use ldaca_wordflow_backend.PortableNames.{portable_relative_path_parts}
use ldaca_wordflow_backend.Background.{
  BackgroundState, queued, running, succeeded, failed, cancelled, is_terminal, is_queued,
  is_running, is_succeeded, is_failed, is_cancelled, complete, Progress, Failure, is_complete,
  all_option, precedes, start_or_creation, is_valid_progress, is_valid_failure,
}

pub data UserFileImportRequest : Type 0 where
  sample : (collection_id : Text) → UserFileImportRequest
  data_portal : (identifier : Text) (name : Option Text) → UserFileImportRequest

pub data UserFileImportResult : Type 0 where
  sample_result :
      (collection_id destination_path : Text) (file_count bytes_written : ℕ) → UserFileImportResult
  data_portal_result :
      (destination_path : Text) (file_count bytes_written : ℕ) → UserFileImportResult

pub record UserFileImport : Type 0 where
  pub id : ℕ
  pub request : UserFileImportRequest
  pub state : BackgroundState
  pub progress : Progress
  pub cancellation_requested_at : Option ℕ
  pub error : Option Failure
  pub result : Option UserFileImportResult
  pub created_at : ℕ
  pub started_at : Option ℕ
  pub finished_at : Option ℕ
  pub revision : ℕ

pub data ImportError : Type 0 where
  invalid_request invalid_progress invalid_failure invalid_result invalid_revision : ImportError
  finished_disagrees queued_started not_started error_disagrees result_disagrees : ImportError
  kind_mismatch cancellation_missing incomplete_success complete_early : ImportError
  started_early cancelled_early finished_early : ImportError
  not_queued not_running not_requested not_live : ImportError

-- `self.result.kind == self.request.kind`
abbrev pub same_kind : UserFileImportRequest → UserFileImportResult → Bool
same_kind (sample c) (sample_result d p n b) = true
same_kind (data_portal i m) (data_portal_result p n b) = true
same_kind _ _ = false

-- The tests of `validate_lifecycle` that the state decides.
check_state : UserFileImport → Result ImportError (Unit {0})
check_state r = do
  raise_if (not (eq_bool (is_terminal r.state) (is_some r.finished_at))) finished_disagrees
  raise_if (is_queued r.state && is_some r.started_at) queued_started
  raise_if ((is_running r.state || is_succeeded r.state) && not (is_some r.started_at)) not_started
  raise_if (not (eq_bool (is_failed r.state) (is_some r.error))) error_disagrees
  raise_if (not (eq_bool (is_succeeded r.state) (is_some r.result))) result_disagrees
  raise_if (not (all_option (same_kind r.request) r.result)) kind_mismatch
  raise_if (is_cancelled r.state && not (is_some r.cancellation_requested_at)) cancellation_missing
  raise_if (is_succeeded r.state && not (is_complete r.progress)) incomplete_success
  raise_if (not (is_succeeded r.state) && is_complete r.progress) complete_early

-- The tests of `validate_lifecycle` on the order of its timestamps.
check_times : UserFileImport → Result ImportError (Unit {0})
check_times r = do
  raise_if (precedes r.started_at r.created_at) started_early
  raise_if (precedes r.cancellation_requested_at r.created_at) cancelled_early
  raise_if (precedes r.finished_at (start_or_creation r.started_at r.created_at)) finished_early

unfoldable pub validate_lifecycle : UserFileImport → Result ImportError UserFileImport
unfolding check_state check_times
validate_lifecycle r = do check_state r; check_times r; ok r

module _ (u : UnicodeData) (trim : Text → Text) where
  -- `_validate_public_path(path) == path`, a raise counting as a refusal
  is_canonical_path : Text → Bool
  is_canonical_path path = elim (portable_relative_path_parts u path false) [
    | ok parts ↦ text_eq (join 0x2f parts) path
    | err e ↦ false
  ]

  -- A text field of bounded length.
  abbrev bounded : ℕ → ℕ → Text → Bool
  bounded lower upper t = leb lower (length t) && leb (length t) upper

  -- The request as validation returns it: `NonEmptyText` is trimmed.
  unfoldable pub validate_request : UserFileImportRequest → Result ImportError UserFileImportRequest
  unfolding is_canonical_path
  validate_request (sample c) =
      if bounded 1 1024 c && is_canonical_path c then ok (sample c) else err invalid_request
  validate_request (data_portal i none) =
      if bounded 1 4000 (trim i) then ok (data_portal (trim i) none) else err invalid_request
  validate_request (data_portal i (some n)) =
      if bounded 1 4000 (trim i) && bounded 1 500 (trim n)
      then ok (data_portal (trim i) (some (trim n)))
      else err invalid_request

  unfoldable pub is_valid_result : UserFileImportResult → Bool
  unfolding is_canonical_path
  is_valid_result (sample_result c p n b) =
      bounded 1 1024 c && is_canonical_path c && bounded 1 4000 p && is_canonical_path p
  is_valid_result (data_portal_result p n b) = bounded 1 4000 p && is_canonical_path p

  -- `UserFileImport.model_validate`
  unfoldable pub validate : UserFileImport → Result ImportError UserFileImport
  validate r = do
    request ← validate_request r.request
    raise_if (not (is_valid_progress r.progress)) invalid_progress
    raise_if (not (all_option is_valid_failure r.error)) invalid_failure
    raise_if (not (all_option is_valid_result r.result)) invalid_result
    raise_if (ltb r.revision 1) invalid_revision
    validate_lifecycle (record r { request = request })

  -- `_transition`: the changed record, one revision on.
  unfoldable pub transition : UserFileImport → Result ImportError UserFileImport
  transition r = validate (record r { revision = r.revision + 1 })

  unfoldable pub start : ℕ → UserFileImport → Result ImportError UserFileImport
  start timestamp r = do
    raise_if (not (is_queued r.state)) not_queued
    transition (record r { state = running; started_at = some timestamp })

  unfoldable pub cancel_queued : ℕ → UserFileImport → Result ImportError UserFileImport
  cancel_queued timestamp r = do
    raise_if (not (is_queued r.state)) not_queued
    transition (record r {
      state = cancelled;
      cancellation_requested_at = some timestamp;
      finished_at = some timestamp;
    })

  unfoldable pub request_running_cancellation :
      ℕ → UserFileImport → Result ImportError UserFileImport
  request_running_cancellation timestamp r = do
    raise_if (not (is_running r.state)) not_running
    if is_some r.cancellation_requested_at
        then ok r
        else transition (record r { cancellation_requested_at = some timestamp })

  unfoldable pub confirm_cancelled :
      ℕ → Progress → UserFileImport → Result ImportError UserFileImport
  confirm_cancelled timestamp progress r = do
    raise_if (not (is_running r.state) || not (is_some r.cancellation_requested_at)) not_requested
    transition (record r { state = cancelled; progress = progress; finished_at = some timestamp })

  unfoldable pub fail : ℕ → Failure → Progress → UserFileImport → Result ImportError UserFileImport
  fail timestamp failure progress r = do
    raise_if (not (is_queued r.state || is_running r.state)) not_live
    transition (record r {
      state = failed;
      progress = progress;
      error = some failure;
      finished_at = some timestamp;
    })

  unfoldable pub succeed :
      ℕ → UserFileImportResult → UserFileImport → Result ImportError UserFileImport
  succeed timestamp result r = do
    raise_if (not (is_running r.state)) not_running
    transition (record r {
      state = succeeded;
      progress = record { fraction = some complete; message = some (codes "Complete") };
      result = some result;
      finished_at = some timestamp;
    })

  unfoldable pub create : UserFileImportRequest → ℕ → ℕ → Result ImportError UserFileImport
  create request timestamp import_id = validate (record {
    id = import_id;
    request = request;
    state = queued;
    progress = record { fraction = some 0; message = some (codes "Queued") };
    cancellation_requested_at = none;
    error = none;
    result = none;
    created_at = timestamp;
    started_at = none;
    finished_at = none;
    revision = 1;
  })
