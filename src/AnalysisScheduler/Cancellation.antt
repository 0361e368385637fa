-- ===== src/AnalysisScheduler/Cancellation.antt =====
-- `cancel` and `cancel_workspace` of analysis_scheduler.py.
use ldaca_wordflow_backend.Base.{
  ℕ, ◌+◌, ◌≤◌, ◌≡◌, refl, inl, inr, Bool, true, false, not, List, [], ◌∷◌, ◌∙◌, ◌≢◌, sym, subst,
  All, ap, arith, any, select, is_empty, count_if, Bool-cases, if◌then◌else◌,
}
use ldaca_wordflow_backend.FairQueue
use ldaca_wordflow_backend.FairQueue.{FairUserQueue}
use ldaca_wordflow_backend.FairQueue.Invariant.{IsValid, remove-IsValid, remove-is_pending}
use ldaca_wordflow_backend.FairQueue.Content.{items_for-remove, count_if-remove}
use ldaca_wordflow_backend.AnalysisScheduler.{
  AnalysisExecutionKey, ScheduledAnalysis, AnalysisScheduler, key_eq, work_removed, cancel_running,
  no_call, has_workspace_work, active_in, is_key, in_workspace, is_active, cancel, cancel_workspace,
  remove_each,
}
use ldaca_wordflow_backend.AnalysisScheduler.Invariant.{key_eq_refl, occurrences, Inv}

cancelled-once :
    (user : ℕ) (p : ScheduledAnalysis → Bool) (s : AnalysisScheduler) (k : AnalysisExecutionKey)
    → occurrences k s ≤ 1
    → count_if (is_key k) (FairQueue.values (FairQueue.remove user p s.pending).1)
        + count_if (key_eq k) s.active
      ≤ 1
cancelled-once user p s k once = omega (arith, once, count_if-remove (is_key k) user p s.pending)

pub cancel-Inv : (k : AnalysisExecutionKey) (s : AnalysisScheduler) → Inv s → Inv (cancel k s).1
unfolding cancel
cancel-Inv k s v = record {
  queue = remove-IsValid k.user_id (is_key k) s.pending v.queue;
  within = v.within;
  once = λ j. cancelled-once k.user_id (is_key k) s j (v.once j);
  idle = v.idle;
  drained = λ stopped. remove-is_pending k.user_id (is_key k) s.pending (v.drained stopped);
  refusing = v.refusing;
  awake = ground (arith, v.awake, remove-is_pending k.user_id (is_key k) s.pending);
}

module _ (user : ℕ) where
  remove_each-IsValid :
      (items : List ScheduledAnalysis) (q : FairUserQueue ScheduledAnalysis)
      → IsValid q
      → IsValid (remove_each user items q)
  unfolding remove_each
  remove_each-IsValid [] q v = v
  remove_each-IsValid (x ∷ xs) q v =
      remove_each-IsValid xs _ (remove-IsValid user (is_key x.key) q v)

  remove_each-count_if :
      (p : ScheduledAnalysis → Bool) (items : List ScheduledAnalysis)
      (q : FairUserQueue ScheduledAnalysis)
      → count_if p (FairQueue.values (remove_each user items q)) ≤ count_if p (FairQueue.values q)
  unfolding remove_each
  remove_each-count_if p [] q = omega arith
  remove_each-count_if p (x ∷ xs) q = omega (
    arith,
    count_if-remove p user (is_key x.key) q,
    remove_each-count_if p xs (FairQueue.remove user (is_key x.key) q).1,
  )

  remove_each-is_pending :
      (items : List ScheduledAnalysis) (q : FairUserQueue ScheduledAnalysis)
      → FairQueue.is_pending q ≡ false
      → FairQueue.is_pending (remove_each user items q) ≡ false
  unfolding remove_each
  remove_each-is_pending [] q h = h
  remove_each-is_pending (x ∷ xs) q h =
      remove_each-is_pending xs _ (remove-is_pending user (is_key x.key) q h)

  pub cancel_workspace-Inv :
      (workspace : ℕ) (s : AnalysisScheduler) → Inv s → Inv (cancel_workspace user workspace s).1
  unfolding cancel_workspace
  cancel_workspace-Inv workspace s v =
      let queued = select (in_workspace workspace) (FairQueue.items_for user s.pending) in
      record {
        queue = remove_each-IsValid queued s.pending v.queue;
        within = v.within;
        once = λ k. omega (arith, v.once k, remove_each-count_if (is_key k) queued s.pending);
        idle = v.idle;
        drained = λ stopped. remove_each-is_pending queued s.pending (v.drained stopped);
        refusing = v.refusing;
        awake = ground (arith, v.awake, remove_each-is_pending queued s.pending);
      }

module _ {ℓ} {A : Type ℓ} (p : A → Bool) where
  any-select-not : (xs : List A) → any p (select (λ x. not (p x)) xs) ≡ false
  any-select-not [] = refl
  any-select-not (x ∷ xs) = ground (arith, any-select-not xs)

  is_empty-select : (xs : List A) → is_empty (select p xs) ≡ not (any p xs)
  is_empty-select [] = refl
  is_empty-select (x ∷ xs) = ground (arith, is_empty-select xs)

-- `cancel` takes the key out of its user's queue, and touches no other user's and no runner. It
-- calls for the notice of removal if the key was queued, for the signal to the runner if it was not
-- and is active, and for nothing otherwise.
pub cancel-unqueued :
    (k : AnalysisExecutionKey) (s : AnalysisScheduler)
    → Inv s
    → let (call, t) = cancel k s in
      (any (is_key k) (FairQueue.items_for k.user_id t.pending) ≡ false)
      × ((u : ℕ)
          → u ≢ k.user_id
          → FairQueue.items_for u t.pending ≡ FairQueue.items_for u s.pending)
      × (t.active ≡ s.active)
      × (call ≡ (
          if any (is_key k) (FairQueue.items_for k.user_id s.pending)
          then work_removed k
          else if is_active k s.active
          then cancel_running k
          else no_call))
unfolding cancel
cancel-unqueued k s v =
    let split = λ (u : ℕ). items_for-remove k.user_id u (is_key k) s.pending v.queue.keys_unique in
    let own = FairQueue.items_for k.user_id s.pending in
    (
      ground (arith, split k.user_id, any-select-not (is_key k) own),
      (λ u other. ground (arith, split u)),
      refl,
      ground (arith, split k.user_id, is_empty-select (is_key k) own),
    )

-- Which items `remove_each` takes out of the user's queue.
abbrev among : List ScheduledAnalysis → ScheduledAnalysis → Bool
among xs x = any (λ y. is_key y.key x) xs

select-among :
    (y : ScheduledAnalysis) (ys xs : List ScheduledAnalysis)
    → select (λ x. not (among ys x)) (select (λ x. not (is_key y.key x)) xs)
      ≡ select (λ x. not (among (y ∷ ys) x)) xs
select-among y ys [] = refl
select-among y ys (x ∷ xs) = ground (arith, select-among y ys xs)

select-among-nil : (xs : List ScheduledAnalysis) → select (λ x. not (among [] x)) xs ≡ xs
select-among-nil [] = refl
select-among-nil (x ∷ xs) = ap (◌∷◌ x) (select-among-nil xs)

items_for-removed :
    (user : ℕ) (p : ScheduledAnalysis → Bool) (q : FairUserQueue ScheduledAnalysis)
    → IsValid q
    → FairQueue.items_for user (FairQueue.remove user p q).1
      ≡ select (λ x. not (p x)) (FairQueue.items_for user q)
items_for-removed user p q v = ground (arith, items_for-remove user user p q v.keys_unique)

items_for-remove_each :
    (user : ℕ) (ys : List ScheduledAnalysis) (q : FairUserQueue ScheduledAnalysis)
    → IsValid q
    → FairQueue.items_for user (remove_each user ys q)
      ≡ select (λ x. not (among ys x)) (FairQueue.items_for user q)
unfolding remove_each
items_for-remove_each user [] q v = sym (select-among-nil (FairQueue.items_for user q))
items_for-remove_each user (y ∷ ys) q v =
    items_for-remove_each user ys _ (remove-IsValid user (is_key y.key) q v)
    ∙ (ap (select (λ x. not (among ys x))) (items_for-removed user (is_key y.key) q v)
        ∙ select-among y ys (FairQueue.items_for user q))

-- Every item of `xs` that passes the test is among `ys`.
abbrev Covers :
    (ScheduledAnalysis → Bool) → List ScheduledAnalysis → List ScheduledAnalysis → Type 0
Covers p ys xs = All (λ x. p x ≡ true → among ys x ≡ true) xs

-- Every item of the workspace is among those that are taken out.
any-select-among :
    (p : ScheduledAnalysis → Bool) (xs ys : List ScheduledAnalysis)
    → Covers p ys xs
    → any p (select (λ x. not (among ys x)) xs) ≡ false
any-select-among p [] ys h = refl
any-select-among p (x ∷ xs) ys h = ground (arith, any-select-among p xs ys h.1, h.0)

among-cons :
    (p : ScheduledAnalysis → Bool) (y : ScheduledAnalysis) (ys xs : List ScheduledAnalysis)
    → Covers p ys xs
    → Covers p (y ∷ ys) xs
among-cons p y ys [] h = tt
among-cons p y ys (x ∷ xs) h = ((λ e. ground (arith, h.0 e)), among-cons p y ys xs h.1)

among-select :
    (p : ScheduledAnalysis → Bool) (xs : List ScheduledAnalysis) → Covers p (select p xs) xs
among-select p [] = tt
among-select p (x ∷ xs) = elim (Bool-cases (p x)) [
  | inl taken ↦
      subst (λ ys. Covers p ys (x ∷ xs)) {x = x ∷ select p xs} (ground arith)
        (
          (λ e. ground (arith, key_eq_refl x.key)),
          among-cons p x (select p xs) xs (among-select p xs),
        )
  | inr kept ↦
      subst (λ ys. Covers p ys (x ∷ xs)) {x = select p xs} (ground arith)
        ((λ e. cc), among-select p xs)
]

-- After `cancel_workspace` the Workspace has no queued work of the user: it has work exactly while
-- one of the signalled runners is active, and those are all its active runners.
pub cancel_workspace-clears :
    (user workspace : ℕ) (s : AnalysisScheduler)
    → Inv s
    → let (signalled, t) = cancel_workspace user workspace s in
      (t.active ≡ s.active)
      × (any (in_workspace workspace) (FairQueue.items_for user t.pending) ≡ false)
      × (has_workspace_work user workspace t ≡ not (is_empty signalled))
unfolding cancel_workspace has_workspace_work
cancel_workspace-clears user workspace s v =
    let own = FairQueue.items_for user s.pending in
    let queued = select (in_workspace workspace) own in
    let gone =
      ap (any (in_workspace workspace)) (items_for-remove_each user queued s.pending v.queue)
      ∙ any-select-among (in_workspace workspace) own queued
          (among-select (in_workspace workspace) own) in
    (refl, gone, ground (arith, gone, is_empty-select (active_in user workspace) s.active))
