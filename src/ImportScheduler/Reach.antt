-- ===== src/ImportScheduler/Reach.antt =====
-- `cancel` of user_file_import_scheduler.py on a running import reaches its runner, whatever comes
-- between the call and the runner's first section.
use ldaca_wordflow_backend.Base.{
  ◌≤◌, ◌≡◌, refl, ap, subst, sym, Bool, true, false, List, [], ◌∷◌, arith, All, all, any, select,
  map, is_empty, count_if, split_if, ◌≢◌, Option, none, some,
}
use ldaca_wordflow_backend.FairQueue
use ldaca_wordflow_backend.FairQueue.Content.{count_if-remove, remove-removed}
use ldaca_wordflow_backend.ImportScheduler.{
  UserFileImportKey, ActiveImport, UserFileImportScheduler, CancellationTarget, running,
  cancel_scope, request_key, enter_scope, runs, holds, cancel, begin_run,
}
use ldaca_wordflow_backend.ImportScheduler.History.{
  Action, beginning, run, queued_count, active_count, IsOnce, cancel-IsOnce, run-IsOnce,
  step-IsOnce, count_if-map, request_key-runs, enter_scope-runs,
}
use ldaca_wordflow_backend.ImportScheduler.Cancellation.{
  IsAsked, IsStopped, Holds, is_going_on, run-Holds,
}

any-count_if : {A : Type 0} (p : A → Bool) (xs : List A) → any p xs ≡ true → 1 ≤ count_if p xs
any-count_if p [] e = cc
any-count_if p (x ∷ xs) e = ground (arith, any-count_if p xs)

select-is_empty :
    {A : Type 0} (p : A → Bool) (xs : List A)
    → count_if p (select p xs) ≡ 0
    → is_empty (select p xs) ≡ true
select-is_empty p [] e = refl
select-is_empty p (x ∷ xs) e = ground (arith, select-is_empty p xs)

-- Nothing is taken from the queue for an import that is not queued.
unqueued :
    (key : UserFileImportKey) (s : UserFileImportScheduler)
    → queued_count key s ≡ 0
    → is_empty (FairQueue.remove key.user_id (holds key) s.pending).0 ≡ true
unqueued key s q =
    let e = remove-removed key.user_id (holds key) s.pending in
    let none_removed : count_if (holds key) (FairQueue.remove key.user_id (holds key) s.pending).0
        ≡ 0 =
      omega (arith, q, count_if-remove (holds key) key.user_id (holds key) s.pending) in
    subst (λ xs. is_empty xs ≡ true) (sym e)
      (select-is_empty (holds key) _ (subst (λ xs. count_if (holds key) xs ≡ 0) e none_removed))

cancel_scope-cancels : (o : Option Bool) → cancel_scope o ≢ some false
cancel_scope-cancels none e = cc
cancel_scope-cancels (some c) e = cc

request_key-asks :
    (key : UserFileImportKey) (xs : List ActiveImport)
    → All (λ a. runs key a ≡ true → IsAsked a) (map (request_key key) xs)
request_key-asks key [] = tt
request_key-asks key (a ∷ xs) = (
  split_if (λ b. runs key b ≡ true → IsAsked b) (runs key a)
      (λ e f. (refl, cancel_scope-cancels a.scope)) (λ e f. cc),
  request_key-asks key xs,
)

enter_scope-stops :
    (key : UserFileImportKey) (xs : List ActiveImport)
    → All (λ a. runs key a ≡ true → IsAsked a) xs
    → All (λ a. runs key a ≡ true → IsStopped a) (map (enter_scope key) xs)
enter_scope-stops key [] h = tt
enter_scope-stops key (a ∷ xs) h = (
  split_if (λ b. runs key b ≡ true → IsStopped b) (runs key a)
      (λ e f. ((h.0 e).0, ap some (h.0 e).0)) (λ e f. cc),
  enter_scope-stops key xs h.1,
)

-- The answer, the state after the actions `xs`, and the state when the runner begins then and `ys`
-- follow.
abbrev pub Reaches :
    UserFileImportKey
    → List Action
    → List Action
    → CancellationTarget × UserFileImportScheduler
    → Type 0
Reaches key xs ys (answer, s) =
    (answer ≡ running)
    × Holds key IsAsked (run xs s)
    × Holds key IsStopped (run (beginning key ∷ ys) (run xs s))

cancel-running :
    (key : UserFileImportKey) (s : UserFileImportScheduler)
    → IsOnce key s
    → any (runs key) s.active ≡ true
    → ((cancel key s).0 ≡ running) × Holds key IsAsked (cancel key s).1
unfolding cancel
cancel-running key s v e =
    let once : active_count key s ≡ 1 = omega (arith, v, any-count_if (runs key) s.active e) in
    let q : queued_count key s ≡ 0 = omega (arith, v, once) in
    rw (cancel, unqueued key s q, e)
      (
        refl,
        (
          omega
              (arith, once, count_if-map key (request_key key) (request_key-runs key key) s.active),
          request_key-asks key s.active,
        ),
      )

-- Nothing is queued or active, as in a new scheduler.
abbrev pub IsIdle : UserFileImportScheduler → Type 0
IsIdle s = (FairQueue.values s.pending ≡ []) × (s.active ≡ [])

-- After any history from an idle scheduler, a cancellation of an active import answers that it is
-- running and asks for it; after any later actions in which the import's runner does not end, the
-- request stands and a scope that the runner has is cancelled; and if the runner begins then, its
-- scope is there and cancelled, and it stays so as long as the runner does not end.
pub cancel-Reaches :
    (key : UserFileImportKey) (s : UserFileImportScheduler) (zs xs ys : List Action)
    → IsIdle s
    → any (runs key) (run zs s).active ≡ true
    → all (is_going_on key) xs ≡ true
    → all (is_going_on key) ys ≡ true
    → Reaches key xs ys (cancel key (run zs s))
unfolding begin_run
cancel-Reaches key s zs xs ys i e g h =
    let once : IsOnce key s = ground (arith, i) in
    let before = run-IsOnce key zs s once in
    let (answer, asked) = cancel-running key (run zs s) before e in
    let t = (cancel key (run zs s)).1 in
    let after = run-IsOnce key xs t (cancel-IsOnce key key (run zs s) before) in
    let still : Holds key IsAsked (run xs t) =
      run-Holds key IsAsked (λ a p. (refl, cancel_scope-cancels a.scope)) (λ a p. (p.0, λ e. cc)) xs
        t g (cancel-IsOnce key key (run zs s) before) asked in
    let u = run xs t in
    let begun : Holds key IsStopped (begin_run key u) = (
      omega
          (arith, still.0, count_if-map key (enter_scope key) (enter_scope-runs key key) u.active),
      enter_scope-stops key u.active still.1,
    ) in
    (
      answer,
      still,
      run-Holds key IsStopped (λ a p. (refl, ap cancel_scope p.1)) (λ a p. (p.0, ap some p.0)) ys
          (begin_run key u) h (step-IsOnce key (beginning key) u after) begun,
    )
