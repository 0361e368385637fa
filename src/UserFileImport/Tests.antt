-- ===== src/UserFileImport/Tests.antt =====
-- A life of an import of user_file_import.py, and its theorems at concrete inputs.
use ldaca_wordflow_backend.Base.{◌≤◌, ◌≡◌, ◌↔◌, refl, none, some, List, [], ◌∷◌, All, ok}
use ldaca_wordflow_backend.Text.{Text, codes, UnicodeData}
use ldaca_wordflow_backend.Background.{queued, cancelled, complete, Progress, is_valid_progress}
use ldaca_wordflow_backend.UserFileImport.{
  UserFileImport, UserFileImportRequest, data_portal, create, validate, validate_request,
  validate_lifecycle, transition, start, request_running_cancellation, confirm_cancelled,
}
use ldaca_wordflow_backend.UserFileImport.Consistency.{IsCanonical, IsConsistent}
use ldaca_wordflow_backend.UserFileImport.Transitions.{
  Op, starts, requests_cancellation, confirms_cancelled, apply, HasValidArguments, IsEnabled, after,
  apply_iff,
}
use ldaca_wordflow_backend.UserFileImport.History.{run, SameImport, run-create, run-terminal}

abbrev tables : UnicodeData
tables = record { nfc = λ t. t; casefold = λ t. t; strip = λ t. t }

abbrev plain : Text → Text
plain t = t

abbrev request : UserFileImportRequest
request = data_portal (codes "arcp://name,corpus") none

abbrev queued_import : UserFileImport
queued_import = record {
  id = 7;
  request = request;
  state = queued;
  progress = record { fraction = some 0; message = some (codes "Queued") };
  cancellation_requested_at = none;
  error = none;
  result = none;
  created_at = 100;
  started_at = none;
  finished_at = none;
  revision = 1;
}

request-IsCanonical : IsCanonical tables plain request
unfolding validate_request
request-IsCanonical = refl

create_queued : create tables plain request 100 7 ≡ ok queued_import
unfolding create validate validate_request validate_lifecycle is_valid_progress complete
create_queued = refl

abbrev halfway : Progress
halfway = record { fraction = some 1; message = none }

abbrev calls : List Op
calls = starts 101 ∷ starts 102 ∷ requests_cancellation 103 ∷ confirms_cancelled 104 halfway ∷ []

calls-valid : All (HasValidArguments tables plain) calls
unfolding is_valid_progress complete
calls-valid = (tt, (tt, (tt, (refl, tt))))

run-create_example :
    IsConsistent tables plain (run tables plain calls queued_import)
    × SameImport queued_import (run tables plain calls queued_import)
    × ((run tables plain calls queued_import).revision ≤ 4)
run-create_example =
    run-create tables plain request 100 7 calls request-IsCanonical create_queued calls-valid

queued_import-IsConsistent : IsConsistent tables plain queued_import
unfolding run
queued_import-IsConsistent =
    (run-create tables plain request 100 7 [] request-IsCanonical create_queued tt).0

apply_iff_example :
    (apply tables plain (starts 101) queued_import ≡ ok (after (starts 101) queued_import)) ↔ (
      IsEnabled (starts 101) queued_import
      × (after (starts 101) queued_import ≡ after (starts 101) queued_import)
      × IsConsistent tables plain (after (starts 101) queued_import))
apply_iff_example =
    apply_iff tables plain queued_import queued_import-IsConsistent (starts 101)
      (after (starts 101) queued_import) tt

abbrev cancelled_import : UserFileImport
cancelled_import = run tables plain calls queued_import

calls_end : (cancelled_import.state ≡ cancelled) × (cancelled_import.revision ≡ 4)
unfolding run apply start request_running_cancellation confirm_cancelled transition validate
    validate_request validate_lifecycle is_valid_progress complete
calls_end = (refl, refl)

run-terminal_example : run tables plain calls cancelled_import ≡ cancelled_import
unfolding run apply start request_running_cancellation confirm_cancelled transition validate
    validate_request validate_lifecycle is_valid_progress complete
run-terminal_example =
    run-terminal tables plain calls cancelled_import calls-valid run-create_example.0 refl
