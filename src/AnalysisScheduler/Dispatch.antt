-- ===== src/AnalysisScheduler/Dispatch.antt =====
-- The dispatch loop of analysis_scheduler.py.
use ldaca_wordflow_backend.Base.{
  ℕ, ◌+◌, ◌≤◌, ◌<◌, ◌≡◌, refl, Bool, true, false, Option, none, some, [], ◌∷◌, ◌++◌, ◌∙◌, arith,
  length, count_if, count_if-append, count_if-any, length-append, is_some,
}
use ldaca_wordflow_backend.FairQueue
use ldaca_wordflow_backend.FairQueue.{FairUserQueue}
use ldaca_wordflow_backend.FairQueue.Invariant.{pop-IsValid, pop-is_pending}
use ldaca_wordflow_backend.FairQueue.Content.{count_if-pop}
use ldaca_wordflow_backend.AnalysisScheduler.{
  AnalysisExecutionKey, ScheduledAnalysis, AnalysisScheduler, key_eq, ready, awaiting, resetting,
  returned, is_key, is_active, can_dispatch, stop_dispatch, launch, dispatch, wake_up, reset,
}
use ldaca_wordflow_backend.AnalysisScheduler.Invariant.{
  wake_up-Inv, reset-Inv, key_eq_refl, key_eq_sym, Inv,
}

-- The keys that become active and those that leave the queue are the same.
launched-once :
    (s : AnalysisScheduler) (x : ScheduledAnalysis) (q : FairUserQueue ScheduledAnalysis)
    → Inv s
    → FairQueue.pop s.pending ≡ some (x, q)
    → (is_active x.key s.active ≡ false)
      × ((k : AnalysisExecutionKey)
          → count_if (is_key k) (FairQueue.values q) + count_if (key_eq k) (s.active ++ x.key ∷ [])
            ≤ 1)
launched-once s x q v e = (
  count_if-any (key_eq x.key) s.active
      (ground (arith, v.once x.key, key_eq_refl x.key, count_if-pop (is_key x.key) s.pending e)),
  λ k. ground (
    arith,
    v.once k,
    key_eq_sym k x.key,
    count_if-pop (is_key k) s.pending e,
    count_if-append (key_eq k) s.active (x.key ∷ []),
  ),
)

launch-Inv :
    (s : AnalysisScheduler) (o : Option (ScheduledAnalysis × FairUserQueue ScheduledAnalysis))
    → Inv s
    → s.loop ≡ ready
    → s.stopping ≡ false
    → length s.active < s.capacity
    → FairQueue.pop s.pending ≡ o
    → is_some o ≡ true
    → Inv (launch s o).1
unfolding launch
launch-Inv s none v l stop room e so = cc
launch-Inv s (some (x, q)) v l stop room e so =
    let (inactive, once) = launched-once s x q v e in
    rw inactive (record {
      queue = pop-IsValid s.pending v.queue e;
      within = omega (arith, length-append s.active (x.key ∷ []));
      once = once;
      idle = ground (arith, v.idle);
      drained = λ stopped. cc;
      refusing = v.refusing;
      awake = rw l tt;
    })

pub dispatch-Inv : (s : AnalysisScheduler) → Inv s → s.loop ≡ ready → Inv (dispatch s).1
unfolding dispatch
dispatch-Inv s v l =
    ground (arith, launch-Inv s (FairQueue.pop s.pending) v l, pop-is_pending s.pending v.queue)

launch-capacity :
    (s : AnalysisScheduler) (o : Option (ScheduledAnalysis × FairUserQueue ScheduledAnalysis))
    → (launch s o).1.capacity ≡ s.capacity
unfolding launch
launch-capacity s none = refl
launch-capacity s (some (x, q)) = refl

pub dispatch-capacity : (s : AnalysisScheduler) → (dispatch s).1.capacity ≡ s.capacity
unfolding dispatch
dispatch-capacity s = ground (arith, launch-capacity s (FairQueue.pop s.pending))

-- What a pass that starts a runner has done: the item left the queue, and nothing else, and its
-- key became active.
abbrev pub Starts : AnalysisScheduler → ScheduledAnalysis → AnalysisScheduler → Type 0
Starts s x t =
    (FairQueue.pop s.pending ≡ some (x, t.pending))
    × (t.active ≡ s.active ++ x.key ∷ [])
    × ((p : ScheduledAnalysis → Bool)
        → count_if p (FairQueue.values s.pending) ≡ count_if p (x ∷ FairQueue.values t.pending))

launch-Starts :
    (s : AnalysisScheduler) (o : Option (ScheduledAnalysis × FairUserQueue ScheduledAnalysis))
    → Inv s
    → FairQueue.pop s.pending ≡ o
    → is_some o ≡ true
    → (x : ScheduledAnalysis) × ((launch s o).0 ≡ some x) × Starts s x (launch s o).1
unfolding launch
launch-Starts s none v e so = cc
launch-Starts s (some (x, q)) v e so =
    let (inactive, once) = launched-once s x q v e in
    (x, refl, (e, rw inactive refl, λ p. count_if-pop p s.pending e))

dispatch-launch :
    (s : AnalysisScheduler)
    → s.stopping ≡ false
    → can_dispatch s ≡ true
    → dispatch s ≡ launch s (FairQueue.pop s.pending)
unfolding dispatch
dispatch-launch s going c = ground arith

-- A pass over a scheduler that has work and room starts exactly one runner.
pub dispatch-Starts :
    (s : AnalysisScheduler)
    → Inv s
    → can_dispatch s ≡ true
    → (x : ScheduledAnalysis) × ((dispatch s).0 ≡ some x) × Starts s x (dispatch s).1
dispatch-Starts s v c =
    let going : s.stopping ≡ false = ground (arith, v.drained) in
    rw (dispatch-launch s going c) (
      launch-Starts s (FairQueue.pop s.pending) v refl
        (pop-is_pending s.pending v.queue ∙ ground arith))

-- The three sections that follow `await wake.wait()`.
abbrev pub wakes : ℕ → AnalysisScheduler → Option ScheduledAnalysis × AnalysisScheduler
wakes g s = dispatch (reset g (wake_up g s))

-- The scheduler after the loop has put a new event in place.
abbrev restarted : AnalysisScheduler → AnalysisScheduler
restarted s = record s { wake = s.wake + 1; wake_set = false; loop = ready }

-- No wake-up is lost: while the loop waits and there are work and room, its event is set, and
-- the next pass starts a runner.
pub wakes-Starts :
    (g : ℕ) (s : AnalysisScheduler)
    → Inv s
    → s.loop ≡ awaiting g
    → can_dispatch s ≡ true
    → (s.wake_set ≡ true)
      × ((x : ScheduledAnalysis) × ((wakes g s).0 ≡ some x) × Starts s x (wakes g s).1)
unfolding wake_up reset
wakes-Starts g s v l c =
    let is_set : s.wake_set ≡ true = ground (arith, v.awake) in
    let after : reset g (wake_up g s) ≡ restarted s = ground (arith, v.awake) in
    let woken : (wake_up g s).loop ≡ resetting g = ground arith in
    let v' = reset-Inv g (wake_up g s) woken (wake_up-Inv g s l v) in
    (is_set, rw after (dispatch-Starts (restarted s) (rw after at v') c))

-- `stop_dispatch` ends a loop that waits: the loop is woken, and its next pass returns without
-- starting a runner or losing one.
pub stop_dispatch-returned :
    (g : ℕ) (s : AnalysisScheduler)
    → Inv s
    → s.loop ≡ awaiting g
    → ((wake_up g (stop_dispatch s).1).loop ≡ resetting g)
      × ((wakes g (stop_dispatch s).1).0 ≡ none)
      × ((wakes g (stop_dispatch s).1).1.loop ≡ returned)
      × ((wakes g (stop_dispatch s).1).1.active ≡ s.active)
unfolding stop_dispatch wake_up reset dispatch
stop_dispatch-returned g s v l = ground (arith, v.awake)
