-- ===== src/AnalysisScheduler/Steps.antt =====
-- Every interleaving of the sections of analysis_scheduler.py that hold its lock.
use ldaca_wordflow_backend.Base.{ℕ, ◌∙◌, ◌≡◌, refl, Option, List, [], ◌∷◌, arith, Result, ok, err}
use ldaca_wordflow_backend.AnalysisScheduler.{
  AnalysisExecutionKey, AnalysisScheduler, SchedulerError, Loop, unstarted, ready, awaiting,
  resetting, returned, crashed, create, start, enqueue, cancel, cancel_workspace, stop_dispatch,
  dispatch, wake_up, reset, finish,
}
use ldaca_wordflow_backend.AnalysisScheduler.Invariant.{
  Inv, create-Inv, start-Inv, wake_up-Inv, reset-Inv, finish-Inv, stop_dispatch-Inv,
}
use ldaca_wordflow_backend.AnalysisScheduler.Enqueue.{enqueue-Inv}
use ldaca_wordflow_backend.AnalysisScheduler.Cancellation.{cancel-Inv, cancel_workspace-Inv}
use ldaca_wordflow_backend.AnalysisScheduler.Dispatch.{dispatch-Inv, dispatch-capacity}

-- A section that takes the lock: a call from outside, the next section of the loop, or the end of
-- a runner.
pub data Action : Type 0 where
  started : Action
  enqueued : AnalysisExecutionKey → ℕ → Option ℕ → Action
  cancelled : AnalysisExecutionKey → Action
  workspace_cancelled : ℕ → ℕ → Action
  stopped : Action
  looped : Action
  finished : AnalysisExecutionKey → Action

-- A call that raises changes nothing.
abbrev pub or_unchanged :
    AnalysisScheduler → Result SchedulerError AnalysisScheduler → AnalysisScheduler
or_unchanged s (ok t) = t
or_unchanged s (err e) = s

-- The next section of `_run`.
loop_section : Loop → AnalysisScheduler → AnalysisScheduler
loop_section ready s = (dispatch s).1
loop_section (awaiting g) s = wake_up g s
loop_section (resetting g) s = reset g s
loop_section unstarted s = s
loop_section returned s = s
loop_section crashed s = s

unfoldable pub step : Action → AnalysisScheduler → AnalysisScheduler
unfolding loop_section
step started s = or_unchanged s (start s)
step (enqueued key created_at credential) s = or_unchanged s (enqueue key created_at credential s)
step (cancelled key) s = (cancel key s).1
step (workspace_cancelled user_id workspace_id) s = (cancel_workspace user_id workspace_id s).1
step stopped s = (stop_dispatch s).1
step looped s = loop_section s.loop s
step (finished key) s = finish key s

unfoldable pub run : List Action → AnalysisScheduler → AnalysisScheduler
run [] s = s
run (a ∷ actions) s = run actions (step a s)

or_unchanged-Inv :
    (s : AnalysisScheduler) (r : Result SchedulerError AnalysisScheduler)
    → Inv s
    → ((t : AnalysisScheduler) → r ≡ ok t → Inv t)
    → Inv (or_unchanged s r)
or_unchanged-Inv s (ok t) v h = h t refl
or_unchanged-Inv s (err e) v h = v

loop_section-Inv : (l : Loop) (s : AnalysisScheduler) → s.loop ≡ l → Inv s → Inv (loop_section l s)
unfolding loop_section
loop_section-Inv ready s e v = dispatch-Inv s v e
loop_section-Inv (awaiting g) s e v = wake_up-Inv g s e v
loop_section-Inv (resetting g) s e v = reset-Inv g s e v
loop_section-Inv unstarted s e v = v
loop_section-Inv returned s e v = v
loop_section-Inv crashed s e v = v

pub step-Inv : (a : Action) (s : AnalysisScheduler) → Inv s → Inv (step a s)
unfolding step
step-Inv started s v = or_unchanged-Inv s _ v (λ t e. start-Inv s v e)
step-Inv (enqueued k c x) s v = or_unchanged-Inv s _ v (λ t e. enqueue-Inv k c x s v e)
step-Inv (cancelled k) s v = cancel-Inv k s v
step-Inv (workspace_cancelled u w) s v = cancel_workspace-Inv u w s v
step-Inv stopped s v = stop_dispatch-Inv s v
step-Inv looped s v = loop_section-Inv s.loop s refl v
step-Inv (finished k) s v = finish-Inv k s v

run_from-Inv : (actions : List Action) (s : AnalysisScheduler) → Inv s → Inv (run actions s)
unfolding run
run_from-Inv [] s v = v
run_from-Inv (a ∷ actions) s v = run_from-Inv actions (step a s) (step-Inv a s v)

or_unchanged-capacity :
    (s : AnalysisScheduler) (r : Result SchedulerError AnalysisScheduler)
    → ((t : AnalysisScheduler) → r ≡ ok t → t.capacity ≡ s.capacity)
    → (or_unchanged s r).capacity ≡ s.capacity
or_unchanged-capacity s (ok t) h = h t refl
or_unchanged-capacity s (err e) h = refl

loop_section-capacity :
    (l : Loop) (s : AnalysisScheduler) → (loop_section l s).capacity ≡ s.capacity
unfolding loop_section wake_up reset
loop_section-capacity ready s = dispatch-capacity s
loop_section-capacity (awaiting g) s = ground arith
loop_section-capacity (resetting g) s = ground arith
loop_section-capacity unstarted s = refl
loop_section-capacity returned s = refl
loop_section-capacity crashed s = refl

step-capacity : (a : Action) (s : AnalysisScheduler) → (step a s).capacity ≡ s.capacity
unfolding step start enqueue cancel cancel_workspace stop_dispatch finish
step-capacity started s = or_unchanged-capacity s (start s) (λ t e. ground arith)
step-capacity (enqueued k c x) s = or_unchanged-capacity s (enqueue k c x s) (λ t e. ground arith)
step-capacity (cancelled k) s = refl
step-capacity (workspace_cancelled u w) s = refl
step-capacity stopped s = ground arith
step-capacity looped s = loop_section-capacity s.loop s
step-capacity (finished k) s = refl

run_from-capacity :
    (actions : List Action) (s : AnalysisScheduler) → (run actions s).capacity ≡ s.capacity
unfolding run
run_from-capacity [] s = refl
run_from-capacity (a ∷ actions) s = run_from-capacity actions (step a s) ∙ step-capacity a s

create-capacity :
    (capacity : ℕ) {s : AnalysisScheduler} → create capacity ≡ ok s → s.capacity ≡ capacity
unfolding create
create-capacity capacity e = ground arith

-- In every interleaving of calls, loop sections and ending runners, from a new scheduler: at most
-- `capacity` keys are active, no key is queued or active twice, the idle event is set exactly while
-- nothing is active, nothing is queued once it stops, the queue is well formed, and a waiting loop
-- with work and room has its event set; the loop never fails on an empty queue.
pub run-Inv :
    (capacity : ℕ) (actions : List Action) {s : AnalysisScheduler}
    → create capacity ≡ ok s
    → Inv (run actions s) × ((run actions s).capacity ≡ capacity)
run-Inv capacity actions {s} e = (
  run_from-Inv actions s (create-Inv capacity e),
  run_from-capacity actions s ∙ create-capacity capacity e,
)
