-- ===== src/ImportScheduler/Tests.antt =====
-- user_file_import_scheduler.py at concrete inputs.
use ldaca_wordflow_backend.Base.{◌≡◌, refl, true, false, none, all, any, List, [], ◌∷◌}
use ldaca_wordflow_backend.FairQueue
use ldaca_wordflow_backend.ImportScheduler.{
  UserFileImportKey, same_key, UserFileImportScheduler, ready, runs, enqueue, dispatch, cancel,
}
use ldaca_wordflow_backend.ImportScheduler.History.{
  Action, enqueuing, cancelling_active, dispatching, finishing, run,
}
use ldaca_wordflow_backend.ImportScheduler.Cancellation.{is_going_on}
use ldaca_wordflow_backend.ImportScheduler.Reach.{Reaches, cancel-Reaches}

abbrev key : UserFileImportKey
key = record { user_id = 1; import_id = 2 }

abbrev other : UserFileImportKey
other = record { user_id = 3; import_id = 4 }

abbrev started : UserFileImportScheduler
started = record {
  capacity = 2;
  pending = record { items = []; user_order = []; last_user = none };
  active = [];
  wake = 0;
  wake_set = false;
  idle_set = true;
  accepting = true;
  stopping = false;
  loop = ready;
}

-- Two imports are queued and both become active.
abbrev before_call : List Action
before_call = enqueuing key 5 ∷ enqueuing other 6 ∷ dispatching ∷ dispatching ∷ []

-- What comes between the call and the runner's first section, and what comes after it.
abbrev between : List Action
between = finishing other ∷ enqueuing other 7 ∷ []

abbrev later : List Action
later = dispatching ∷ cancelling_active ∷ []

key_active : any (runs key) (run before_call started).active ≡ true
unfolding enqueue dispatch same_key FairQueue.add FairQueue.sort FairQueue.pop
key_active = refl

goes_on : all (is_going_on key) between ≡ true
unfolding same_key
goes_on = refl

goes_on_later : all (is_going_on key) later ≡ true
goes_on_later = refl

cancel-Reaches_example : Reaches key between later (cancel key (run before_call started))
cancel-Reaches_example =
    cancel-Reaches key started before_call between later (refl, refl) key_active goes_on
      goes_on_later
