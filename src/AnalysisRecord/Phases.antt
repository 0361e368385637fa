-- ===== src/AnalysisRecord/Phases.antt =====
-- The phases that an Analysis of analysis.py promises to go through, and the methods of its record as
-- calls.
use ldaca_wordflow_backend.Base.{
  ℕ, Bool, true, false, Option, none, some, List, [], ◌∷◌, is_some, Result, ok, err,
}
use ldaca_wordflow_backend.Text.{Text}
use ldaca_wordflow_backend.Background.{
  BackgroundState, queued, running, succeeded, failed, cancelled, Progress, Failure,
}
use ldaca_wordflow_backend.AnalysisRecord.Checks.{AnalysisRecord, Artifact, AnalysisError}
use ldaca_wordflow_backend.AnalysisRecord.{
  start, cancel_queued, request_running_cancellation, confirm_cancelled, fail, succeed,
}

-- The calls of the methods.
pub data Op : Type 0 where
  starts cancels_queued requests_cancellation : ℕ → Op
  confirms_cancelled : ℕ → Progress → Op
  fails : ℕ → Failure → Progress → Op
  succeeds :
      (timestamp payload : ℕ) (artifacts : List Artifact) (outputs : List ℕ)
      (snapshot : Option Text)
      → Op

module _ (casefold : Text → Text) (id_text : ℕ → Text) where
  unfoldable pub apply : Op → AnalysisRecord → Result AnalysisError AnalysisRecord
  apply (starts t) a = start casefold id_text t a
  apply (cancels_queued t) a = cancel_queued casefold id_text t a
  apply (requests_cancellation t) a = request_running_cancellation casefold id_text t a
  apply (confirms_cancelled t p) a = confirm_cancelled casefold id_text t p a
  apply (fails t f p) a = fail casefold id_text t f p a
  apply (succeeds t x artifacts outputs snapshot) a =
      succeed casefold id_text t x artifacts outputs snapshot a

  -- A call that raises leaves the record as it was.
  abbrev pub or_kept : AnalysisRecord → Result AnalysisError AnalysisRecord → AnalysisRecord
  or_kept a (ok b) = b
  or_kept a (err e) = a

  unfoldable pub run : List Op → AnalysisRecord → AnalysisRecord
  run [] a = a
  run (op ∷ ops) a = run ops (or_kept a (apply op a))

pub data Outcome : Type 0 where
  success failure cancellation : Outcome

-- An Analysis waits, works (and has perhaps been asked to stop), or is over.
pub data Phase : Type 0 where
  waiting : Phase
  working : (asked : Bool) → Phase
  over : Outcome → Phase

pub data Event : Type 0 where
  begins withdraws asks confirms breaks completes : Event

-- The phase after an event, if the event may happen.
abbrev pub next : Event → Phase → Option Phase
next begins waiting = some (working false)
next withdraws waiting = some (over cancellation)
next asks (working asked) = some (working true)
next confirms (working true) = some (over cancellation)
next breaks waiting = some (over failure)
next breaks (working asked) = some (over failure)
next completes (working asked) = some (over success)
next _ _ = none

-- The phase after a sequence of events.
abbrev pub follow : List Event → Option Phase → Option Phase
follow [] p = p
follow (e ∷ es) none = none
follow (e ∷ es) (some p) = follow es (next e p)

abbrev pub event_for : Op → Event
event_for (starts t) = begins
event_for (cancels_queued t) = withdraws
event_for (requests_cancellation t) = asks
event_for (confirms_cancelled t p) = confirms
event_for (fails t f p) = breaks
event_for (succeeds t x artifacts outputs snapshot) = completes

abbrev pub phase : BackgroundState → Option ℕ → Phase
phase queued requested = waiting
phase running requested = working (is_some requested)
phase succeeded requested = over success
phase failed requested = over failure
phase cancelled requested = over cancellation

abbrev pub phase_of : AnalysisRecord → Phase
phase_of a = phase a.lifecycle.state a.lifecycle.cancellation_requested_at

-- A call that succeeds is an event, before those that `later` gives from the new record.
abbrev pub recorded :
    (AnalysisRecord → List Event)
    → Op
    → AnalysisRecord
    → Result AnalysisError AnalysisRecord
    → List Event
recorded later op a (err e) = later a
recorded later op a (ok b) = event_for op ∷ later b

module _ (casefold : Text → Text) (id_text : ℕ → Text) where
  -- The events of the calls that succeed, in their order.
  unfoldable pub happened : List Op → AnalysisRecord → List Event
  happened [] a = []
  happened (op ∷ ops) a = recorded (happened ops) op a (apply casefold id_text op a)
