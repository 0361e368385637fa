-- ===== src/ImportScheduler/Cancellation.antt =====
-- What user_file_import_scheduler.py keeps of a cancelled running import, in every history.
use ldaca_wordflow_backend.Base.{
  ◌≡◌, ◌≢◌, refl, sym, subst, Bool, true, false, not, ◌&&◌, Option, none, some, List, [], ◌∷◌,
  arith, All, all, any, select, map, is_empty, ltb, length, count_if, split_if,
}
use ldaca_wordflow_backend.FairQueue
use ldaca_wordflow_backend.FairQueue.{FairUserQueue}
use ldaca_wordflow_backend.FairQueue.Content.{count_if-pop}
use ldaca_wordflow_backend.ImportScheduler.{
  UserFileImportKey, same_key, ScheduledUserFileImport, ActiveImport, UserFileImportScheduler,
  CancellationTarget, enqueue, request, request_key, runs, holds, cancel, stop_dispatch,
  cancel_active, activate, launch_import, dispatch, wake_up, reset, enter_scope, begin_run, finish,
}
use ldaca_wordflow_backend.ImportScheduler.History.{
  Action, enqueuing, cancelling, stopping_dispatch, cancelling_active, dispatching, waking,
  resetting_event, beginning, finishing, kept, step, run, queued_count, active_count, IsOnce,
  step-IsOnce, count_if-map, request_key-runs, enter_scope-runs,
}

-- Cancellation was asked for, and the scope, if the runner has one by now, is cancelled.
abbrev pub IsAsked : ActiveImport → Type 0
IsAsked a = (a.cancellation_requested ≡ true) × (a.scope ≢ some false)

-- The runner has a scope, and it is cancelled.
abbrev pub IsStopped : ActiveImport → Type 0
IsStopped a = (a.cancellation_requested ≡ true) × (a.scope ≡ some true)

-- The import is active, and what is active under its key has the property.
abbrev pub Holds : UserFileImportKey → (ActiveImport → Type 0) → UserFileImportScheduler → Type 0
Holds key P s = (active_count key s ≡ 1) × All (λ a. runs key a ≡ true → P a) s.active

-- The runner of the import does not end in the step.
abbrev pub is_going_on : UserFileImportKey → Action → Bool
is_going_on key (finishing k) = not (same_key k key)
is_going_on key _ = true

active_count-activate :
    (k key : UserFileImportKey) (xs : List ActiveImport)
    → same_key k key ≡ false
    → count_if (runs key) (activate k xs) ≡ count_if (runs key) xs
active_count-activate k key [] e = ground arith
active_count-activate k key (a ∷ xs) e = ground (arith, active_count-activate k key xs e)

active_count-select :
    (k key : UserFileImportKey) (xs : List ActiveImport)
    → same_key k key ≡ false
    → count_if (runs key) (select (λ a. not (runs k a)) xs) ≡ count_if (runs key) xs
unfolding same_key
active_count-select k key [] e = refl
active_count-select k key (a ∷ xs) e = ground (arith, active_count-select k key xs e)

-- The entries of a key, and what stays true of one when its cancellation is asked for again and when
-- its runner begins.
module _ (key : UserFileImportKey) (P : ActiveImport → Type 0)
    (again : (a : ActiveImport) → P a → P (request a))
    (enter : (a : ActiveImport)
      → P a
      → P (record a { scope = some a.cancellation_requested })) where
  abbrev Entry : ActiveImport → Type 0
  Entry a = runs key a ≡ true → P a

  request-Entry : (xs : List ActiveImport) → All Entry xs → All Entry (map request xs)
  request-Entry [] h = tt
  request-Entry (a ∷ xs) h = (λ e. again a (h.0 e), request-Entry xs h.1)

  request_key-Entry :
      (k : UserFileImportKey) (xs : List ActiveImport)
      → All Entry xs
      → All Entry (map (request_key k) xs)
  request_key-Entry k [] h = tt
  request_key-Entry k (a ∷ xs) h =
      (split_if Entry (runs k a) (λ e f. again a (h.0 f)) (λ e. h.0), request_key-Entry k xs h.1)

  enter_scope-Entry :
      (k : UserFileImportKey) (xs : List ActiveImport)
      → All Entry xs
      → All Entry (map (enter_scope k) xs)
  enter_scope-Entry k [] h = tt
  enter_scope-Entry k (a ∷ xs) h =
      (split_if Entry (runs k a) (λ e f. enter a (h.0 f)) (λ e. h.0), enter_scope-Entry k xs h.1)

  select-Entry :
      (p : ActiveImport → Bool) (xs : List ActiveImport) → All Entry xs → All Entry (select p xs)
  select-Entry p [] h = tt
  select-Entry p (a ∷ xs) h =
      split_if (All Entry) (p a) (λ e. (h.0, select-Entry p xs h.1)) (λ e. select-Entry p xs h.1)

  activate-Entry :
      (k : UserFileImportKey) (xs : List ActiveImport)
      → same_key k key ≡ false
      → All Entry xs
      → All Entry (activate k xs)
  unfolding same_key
  activate-Entry k [] e h = (λ f. cc, tt)
  activate-Entry k (a ∷ xs) e h =
      split_if (All Entry) (runs k a) (λ f. (λ g. absurd (ground arith), h.1))
        (λ f. (h.0, activate-Entry k xs e h.1))

  cancel-Holds :
      (k : UserFileImportKey) (s : UserFileImportScheduler)
      → Holds key P s
      → Holds key P (cancel k s).1
  unfolding cancel
  cancel-Holds k s h =
      let Kept = λ (r : CancellationTarget × UserFileImportScheduler). Holds key P r.1 in
      split_if Kept (not (is_empty (FairQueue.remove k.user_id (holds k) s.pending).0)) (λ e. h)
        (λ e.
          split_if Kept (any (runs k) s.active)
            (λ f. (
              omega
                  (arith, h.0, count_if-map key (request_key k) (request_key-runs k key) s.active),
              request_key-Entry k s.active h.1,
            ))
            (λ f. h))

  launch-Holds :
      (s : UserFileImportScheduler)
      (o : Option (ScheduledUserFileImport × FairUserQueue ScheduledUserFileImport))
      → FairQueue.pop s.pending ≡ o
      → queued_count key s ≡ 0
      → Holds key P s
      → Holds key P (launch_import s o).1
  launch-Holds s none e q h = h
  launch-Holds s (some (item, rest)) e q h =
      let other : same_key item.key key ≡ false =
        ground (arith, count_if-pop (holds key) s.pending e) in
      (
        omega (arith, h.0, active_count-activate item.key key s.active other),
        activate-Entry item.key s.active other h.1,
      )

  dispatch-Holds :
      (s : UserFileImportScheduler)
      → queued_count key s ≡ 0
      → Holds key P s
      → Holds key P (dispatch s).1
  unfolding dispatch
  dispatch-Holds s q h =
      let Kept =
        λ (r : Option ScheduledUserFileImport × UserFileImportScheduler). Holds key P r.1 in
      split_if Kept s.stopping (λ e. h)
        (λ e.
          split_if Kept (FairQueue.is_pending s.pending && ltb (length s.active) s.capacity)
            (λ f. launch-Holds s (FairQueue.pop s.pending) refl q h) (λ f. h))

  same_active-Holds :
      (s t : UserFileImportScheduler) → t.active ≡ s.active → Holds key P s → Holds key P t
  same_active-Holds s t e h = subst (λ xs. (count_if (runs key) xs ≡ 1) × All Entry xs) (sym e) h

  step-Holds :
      (a : Action) (s : UserFileImportScheduler)
      → is_going_on key a ≡ true
      → queued_count key s ≡ 0
      → Holds key P s
      → Holds key P (step a s)
  unfolding enqueue stop_dispatch cancel_active wake_up reset begin_run finish
  step-Holds (enqueuing k t) s g q h = same_active-Holds s (kept s (enqueue k t s)) (ground arith) h
  step-Holds (cancelling k) s g q h = cancel-Holds k s h
  step-Holds stopping_dispatch s g q h = same_active-Holds s (stop_dispatch s).1 (ground arith) h
  step-Holds cancelling_active s g q h = (
    omega (arith, h.0, count_if-map key request (λ a. refl) s.active),
    request-Entry s.active h.1,
  )
  step-Holds dispatching s g q h = dispatch-Holds s q h
  step-Holds (waking w) s g q h = same_active-Holds s (wake_up w s) (ground arith) h
  step-Holds (resetting_event w) s g q h = same_active-Holds s (reset w s) (ground arith) h
  step-Holds (beginning k) s g q h = (
    omega (arith, h.0, count_if-map key (enter_scope k) (enter_scope-runs k key) s.active),
    enter_scope-Entry k s.active h.1,
  )
  step-Holds (finishing k) s g q h = (
    omega (arith, h.0, active_count-select k key s.active (ground arith)),
    select-Entry (λ a. not (runs k a)) s.active h.1,
  )

  pub run-Holds :
      (xs : List Action) (s : UserFileImportScheduler)
      → all (is_going_on key) xs ≡ true
      → IsOnce key s
      → Holds key P s
      → Holds key P (run xs s)
  run-Holds [] s g v h = h
  run-Holds (a ∷ xs) s g v h =
      run-Holds xs (step a s) (ground arith) (step-IsOnce key a s v)
        (step-Holds a s (ground arith) (omega (arith, v, h.0)) h)
