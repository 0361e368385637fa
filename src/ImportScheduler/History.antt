-- ===== src/ImportScheduler/History.antt =====
-- Histories of user_file_import_scheduler.py, and where an import is in them: queued or active, and at
-- most once.
use ldaca_wordflow_backend.Base.{
  ℕ, ◌+◌, ◌≤◌, ◌≡◌, refl, true, false, not, ◌&&◌, ◌||◌, Option, none, some, List, [], ◌∷◌, arith,
  any, select, map, is_empty, ltb, length, count_if, split_if, if◌then◌else◌, Result, ok, err,
}
use ldaca_wordflow_backend.FairQueue
use ldaca_wordflow_backend.FairQueue.{FairUserQueue}
use ldaca_wordflow_backend.FairQueue.Content.{
  count_if-add, count_if-pop, count_if-remove, count_if-clear,
}
use ldaca_wordflow_backend.ImportScheduler.{
  UserFileImportKey, same_key, ScheduledUserFileImport, ActiveImport, UserFileImportScheduler,
  SchedulerError, CancellationTarget, precedes_import, enqueue, request, request_key, runs, holds,
  has_started, cancel, stop_dispatch, cancel_active, activate, launch_import, dispatch, wake_up,
  reset, enter_scope, begin_run, finish,
}

pub data Action : Type 0 where
  enqueuing : UserFileImportKey → ℕ → Action
  cancelling : UserFileImportKey → Action
  stopping_dispatch : Action
  cancelling_active : Action
  dispatching : Action
  waking : ℕ → Action
  resetting_event : ℕ → Action
  beginning : UserFileImportKey → Action
  finishing : UserFileImportKey → Action

abbrev pub kept :
    UserFileImportScheduler
    → Result SchedulerError UserFileImportScheduler
    → UserFileImportScheduler
kept s (ok t) = t
kept s (err e) = s

abbrev pub step : Action → UserFileImportScheduler → UserFileImportScheduler
step (enqueuing key t) s = kept s (enqueue key t s)
step (cancelling key) s = (cancel key s).1
step stopping_dispatch s = (stop_dispatch s).1
step cancelling_active s = (cancel_active s).1
step dispatching s = (dispatch s).1
step (waking g) s = wake_up g s
step (resetting_event g) s = reset g s
step (beginning key) s = begin_run key s
step (finishing key) s = finish key s

abbrev pub run : List Action → UserFileImportScheduler → UserFileImportScheduler
run [] s = s
run (a ∷ xs) s = run xs (step a s)

-- How often an import is queued, and how often it is active.
abbrev pub queued_count : UserFileImportKey → UserFileImportScheduler → ℕ
queued_count key s = count_if (holds key) (FairQueue.values s.pending)

abbrev pub active_count : UserFileImportKey → UserFileImportScheduler → ℕ
active_count key s = count_if (runs key) s.active

-- An import is known once at most.
abbrev pub IsOnce : UserFileImportKey → UserFileImportScheduler → Type 0
IsOnce key s = queued_count key s + active_count key s ≤ 1

count_if-same_key :
    (k key : UserFileImportKey) (xs : List ActiveImport)
    → same_key k key ≡ true
    → count_if (runs key) xs ≡ count_if (runs k) xs
unfolding same_key
count_if-same_key k key [] e = refl
count_if-same_key k key (a ∷ xs) e = ground (arith, count_if-same_key k key xs e)

any-active :
    (k : UserFileImportKey) (xs : List ActiveImport)
    → any (runs k) xs ≡ false
    → count_if (runs k) xs ≡ 0
any-active k [] e = refl
any-active k (a ∷ xs) e = ground (arith, any-active k xs)

any-queued :
    (k key : UserFileImportKey) (xs : List ScheduledUserFileImport)
    → same_key k key ≡ true
    → any (holds k) xs ≡ false
    → count_if (holds key) xs ≡ 0
unfolding same_key
any-queued k key [] e f = refl
any-queued k key (x ∷ xs) e f = ground (arith, any-queued k key xs e)

pub count_if-map :
    (key : UserFileImportKey) (f : ActiveImport → ActiveImport)
    → ((a : ActiveImport) → runs key (f a) ≡ runs key a)
    → (xs : List ActiveImport) → count_if (runs key) (map f xs) ≡ count_if (runs key) xs
count_if-map key f same [] = refl
count_if-map key f same (a ∷ xs) = ground (arith, same a, count_if-map key f same xs)

count_if-activate :
    (k key : UserFileImportKey) (xs : List ActiveImport)
    → count_if (runs key) (activate k xs)
      ≤ count_if (runs key) xs + (if same_key k key then 1 else 0)
count_if-activate k key [] = ground arith
count_if-activate k key (a ∷ xs) = ground (arith, count_if-activate k key xs)

pub count_if-finish :
    (k key : UserFileImportKey) (xs : List ActiveImport)
    → count_if (runs key) (select (λ a. not (runs k a)) xs) ≤ count_if (runs key) xs
count_if-finish k key [] = omega arith
count_if-finish k key (a ∷ xs) = ground (arith, count_if-finish k key xs)

pub request_key-runs :
    (k key : UserFileImportKey) (a : ActiveImport) → runs key (request_key k a) ≡ runs key a
request_key-runs k key a = ground arith

pub enter_scope-runs :
    (k key : UserFileImportKey) (a : ActiveImport) → runs key (enter_scope k a) ≡ runs key a
enter_scope-runs k key a = ground arith

enqueue-IsOnce :
    (k key : UserFileImportKey) (t : ℕ) (s : UserFileImportScheduler)
    → IsOnce key s
    → IsOnce key (kept s (enqueue k t s))
unfolding enqueue
enqueue-IsOnce k key t s v =
    let item : ScheduledUserFileImport = record { key = k; created_at = t } in
    split_if (λ o. IsOnce key (kept s o)) (not s.accepting || not (has_started s.loop)) (λ e. v)
      (λ e.
        split_if (λ o. IsOnce key (kept s o))
          (any (runs k) s.active || any (holds k) (FairQueue.values s.pending)) (λ f. v)
          (λ f. ground (
            arith,
            v,
            f,
            count_if-add (holds key) precedes_import k.user_id item s.pending,
            count_if-same_key k key s.active,
            any-active k s.active,
            any-queued k key (FairQueue.values s.pending),
          )))

pub cancel-IsOnce :
    (k key : UserFileImportKey) (s : UserFileImportScheduler)
    → IsOnce key s
    → IsOnce key (cancel k s).1
unfolding cancel
cancel-IsOnce k key s v =
    let Once = λ (r : CancellationTarget × UserFileImportScheduler). IsOnce key r.1 in
    let (removed, pending) = FairQueue.remove k.user_id (holds k) s.pending in
    let fewer = count_if-remove (holds key) k.user_id (holds k) s.pending in
    split_if Once (not (is_empty removed)) (λ e. omega (arith, v, fewer))
      (λ e.
        split_if Once (any (runs k) s.active)
          (λ f.
            omega
              (arith, v, fewer, count_if-map key (request_key k) (request_key-runs k key) s.active))
          (λ f. omega (arith, v, fewer)))

stop_dispatch-IsOnce :
    (key : UserFileImportKey) (s : UserFileImportScheduler)
    → IsOnce key s
    → IsOnce key (stop_dispatch s).1
unfolding stop_dispatch
stop_dispatch-IsOnce key s v =
    split_if (λ (r : List ScheduledUserFileImport × UserFileImportScheduler). IsOnce key r.1)
      s.stopping (λ e. v) (λ e. omega (arith, v, (count_if-clear (holds key) s.pending).1))

launch-IsOnce :
    (key : UserFileImportKey) (s : UserFileImportScheduler)
    (o : Option (ScheduledUserFileImport × FairUserQueue ScheduledUserFileImport))
    → FairQueue.pop s.pending ≡ o
    → IsOnce key s
    → IsOnce key (launch_import s o).1
launch-IsOnce key s none e v = v
launch-IsOnce key s (some (item, q)) e v =
    ground (arith, v, count_if-pop (holds key) s.pending e, count_if-activate item.key key s.active)

dispatch-IsOnce :
    (key : UserFileImportKey) (s : UserFileImportScheduler)
    → IsOnce key s
    → IsOnce key (dispatch s).1
unfolding dispatch
dispatch-IsOnce key s v =
    let Once = λ (r : Option ScheduledUserFileImport × UserFileImportScheduler). IsOnce key r.1 in
    split_if Once s.stopping (λ e. v)
      (λ e.
        split_if Once (FairQueue.is_pending s.pending && ltb (length s.active) s.capacity)
          (λ f. launch-IsOnce key s (FairQueue.pop s.pending) refl v) (λ f. v))

pub step-IsOnce :
    (key : UserFileImportKey) (a : Action) (s : UserFileImportScheduler)
    → IsOnce key s
    → IsOnce key (step a s)
unfolding cancel_active wake_up reset begin_run finish
step-IsOnce key (enqueuing k t) s v = enqueue-IsOnce k key t s v
step-IsOnce key (cancelling k) s v = cancel-IsOnce k key s v
step-IsOnce key stopping_dispatch s v = stop_dispatch-IsOnce key s v
step-IsOnce key cancelling_active s v =
    omega (arith, v, count_if-map key request (λ a. refl) s.active)
step-IsOnce key dispatching s v = dispatch-IsOnce key s v
step-IsOnce key (waking g) s v = ground (arith, v)
step-IsOnce key (resetting_event g) s v = ground (arith, v)
step-IsOnce key (beginning k) s v =
    omega (arith, v, count_if-map key (enter_scope k) (enter_scope-runs k key) s.active)
step-IsOnce key (finishing k) s v = omega (arith, v, count_if-finish k key s.active)

pub run-IsOnce :
    (key : UserFileImportKey) (xs : List Action) (s : UserFileImportScheduler)
    → IsOnce key s
    → IsOnce key (run xs s)
run-IsOnce key [] s v = v
run-IsOnce key (a ∷ xs) s v = run-IsOnce key xs (step a s) (step-IsOnce key a s v)
