-- ===== src/AnalysisScheduler/Tests.antt =====
-- A run of analysis_scheduler.py, and its theorems at concrete inputs.
use ldaca_wordflow_backend.Base.{
  ℕ, ◌≡◌, ◌≢◌, ◌↔◌, ◌⊎◌, refl, true, false, not, any, is_empty, some, none, List, [], ◌∷◌, ok, err,
  if◌then◌else◌,
}
use ldaca_wordflow_backend.FairQueue
use ldaca_wordflow_backend.AnalysisScheduler.{
  AnalysisExecutionKey, ScheduledAnalysis, AnalysisScheduler, scheduling_stopped, already_scheduled,
  unstarted, returned, resetting, key_eq, earlier, create, start, enqueue, cancel, cancel_workspace,
  stop_dispatch, dispatch, wake_up, reset, finish, is_key, is_active, in_workspace,
  has_workspace_work, work_removed, cancel_running, no_call,
}
use ldaca_wordflow_backend.AnalysisScheduler.Invariant.{Inv, occurrences, finish-Inv}
use ldaca_wordflow_backend.AnalysisScheduler.Enqueue.{enqueue-refusals}
use ldaca_wordflow_backend.AnalysisScheduler.Cancellation.{cancel-unqueued, cancel_workspace-clears}
use ldaca_wordflow_backend.AnalysisScheduler.Dispatch.{
  Starts, wakes, wakes-Starts, stop_dispatch-returned,
}
use ldaca_wordflow_backend.AnalysisScheduler.Steps.{
  Action, started, enqueued, looped, run, step, run-Inv,
}

abbrev created : AnalysisScheduler
created = record {
  capacity = 1;
  pending = FairQueue.new;
  active = [];
  wake = 0;
  wake_set = false;
  idle_set = true;
  accepting = true;
  stopping = false;
  loop = unstarted;
}

abbrev key_a : AnalysisExecutionKey
key_a = record { user_id = 1; workspace_id = 10; analysis_id = 100 }

abbrev key_b : AnalysisExecutionKey
key_b = record { user_id = 2; workspace_id = 20; analysis_id = 200 }

abbrev key_c : AnalysisExecutionKey
key_c = record { user_id = 1; workspace_id = 10; analysis_id = 101 }

create_one : create 1 ≡ ok created
unfolding create
create_one = refl

-- The loop starts `key_a`, waits for room, and holds two items meanwhile.
abbrev history : List Action
history =
    started
    ∷ looped
    ∷ enqueued key_a 5 none
    ∷ looped
    ∷ looped
    ∷ looped
    ∷ looped
    ∷ enqueued key_b 6 none
    ∷ enqueued key_c 7 none
    ∷ []

abbrev busy : AnalysisScheduler
busy = run history created

history-Inv : Inv busy
history-Inv = (run-Inv 1 history create_one).0

busy_active : busy.active ≡ key_a ∷ []
unfolding run step start dispatch enqueue wake_up reset FairQueue.pop FairQueue.add FairQueue.new
    FairQueue.sort earlier key_eq
busy_active = refl

run-Inv_example : Inv (run history created) × ((run history created).capacity ≡ 1)
run-Inv_example = run-Inv 1 history create_one

enqueue-refusals_example :
    ((enqueue key_b 9 none busy ≡ err scheduling_stopped)
      ↔ ((busy.stopping ≡ true) ⊎ (busy.loop ≡ unstarted)))
    × ((enqueue key_b 9 none busy ≡ err already_scheduled)
        ↔ ((busy.stopping ≡ false) × (busy.loop ≢ unstarted) × (occurrences key_b busy ≡ 1)))
enqueue-refusals_example = enqueue-refusals key_b 9 none busy history-Inv

cancel-unqueued_example :
    let (call, t) = cancel key_b busy in
    (any (is_key key_b) (FairQueue.items_for 2 t.pending) ≡ false)
    × ((u : ℕ) → u ≢ 2 → FairQueue.items_for u t.pending ≡ FairQueue.items_for u busy.pending)
    × (t.active ≡ busy.active)
    × (call ≡ (
        if any (is_key key_b) (FairQueue.items_for 2 busy.pending)
        then work_removed key_b
        else if is_active key_b busy.active
        then cancel_running key_b
        else no_call))
cancel-unqueued_example = cancel-unqueued key_b busy history-Inv

cancel_workspace-clears_example :
    let (signalled, t) = cancel_workspace 1 10 busy in
    (t.active ≡ busy.active)
    × (any (in_workspace 10) (FairQueue.items_for 1 t.pending) ≡ false)
    × (has_workspace_work 1 10 t ≡ not (is_empty signalled))
cancel_workspace-clears_example = cancel_workspace-clears 1 10 busy history-Inv

-- Once `key_a` has ended, the waiting loop starts the next runner.
abbrev freed : AnalysisScheduler
freed = finish key_a busy

freed-Inv : Inv freed
freed-Inv = finish-Inv key_a busy history-Inv

wakes-Starts_example :
    (freed.wake_set ≡ true)
    × ((x : ScheduledAnalysis) × ((wakes 1 freed).0 ≡ some x) × Starts freed x (wakes 1 freed).1)
unfolding run step start dispatch enqueue finish wake_up reset FairQueue.pop FairQueue.add
    FairQueue.new FairQueue.sort earlier key_eq
wakes-Starts_example = wakes-Starts 1 freed freed-Inv refl refl

-- Stopping wakes the loop of a scheduler that is at its capacity.
stop_dispatch-returned_example :
    ((wake_up 1 (stop_dispatch busy).1).loop ≡ resetting 1)
    × ((wakes 1 (stop_dispatch busy).1).0 ≡ none)
    × ((wakes 1 (stop_dispatch busy).1).1.loop ≡ returned)
    × ((wakes 1 (stop_dispatch busy).1).1.active ≡ busy.active)
unfolding run step start dispatch enqueue finish FairQueue.pop FairQueue.add FairQueue.new
    FairQueue.sort earlier key_eq wake_up reset
stop_dispatch-returned_example = stop_dispatch-returned 1 busy history-Inv refl
