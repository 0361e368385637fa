-- ===== src/AnalysisScheduler/Enqueue.antt =====
-- `enqueue` of analysis_scheduler.py: what it admits and what it refuses.
use ldaca_wordflow_backend.Base.{
  ℕ, ◌+◌, ◌≤◌, ◌≡◌, ◌⊎◌, inl, inr, true, false, ◌||◌, Option, ◌↔◌, ◌≢◌, arith, any, count_if,
  any-count_if, count_if-any, ok, err, Bool-cases,
}
use ldaca_wordflow_backend.FairQueue
use ldaca_wordflow_backend.FairQueue.{FairUserQueue}
use ldaca_wordflow_backend.FairQueue.Invariant.{add-IsValid}
use ldaca_wordflow_backend.FairQueue.Content.{count_if-add}
use ldaca_wordflow_backend.AnalysisScheduler.{
  AnalysisExecutionKey, ScheduledAnalysis, AnalysisScheduler, key_eq, earlier, unstarted,
  is_started, scheduling_stopped, already_scheduled, is_key, is_active, enqueue,
}
use ldaca_wordflow_backend.AnalysisScheduler.Invariant.{key_eq_sound, occurrences, Inv}

module _ (key : AnalysisExecutionKey) (created_at : ℕ) (credential : Option ℕ) where
  abbrev item : ScheduledAnalysis
  item = record { key = key; created_at = created_at; credential = credential }

  -- What a successful `enqueue` has checked, and the state that it leaves.
  pub enqueue-ok :
      (s : AnalysisScheduler) {t : AnalysisScheduler}
      → enqueue key created_at credential s ≡ ok t
      → (s.accepting ≡ true)
        × (is_started s.loop ≡ true)
        × (is_active key s.active ≡ false)
        × (any (is_key key) (FairQueue.values s.pending) ≡ false)
        × (t ≡ record s {
          pending = FairQueue.add earlier key.user_id item s.pending;
          wake_set = true;
        })
  unfolding enqueue
  enqueue-ok s e = ground arith

  enqueued-once :
      (s : AnalysisScheduler) (k : AnalysisExecutionKey)
      → occurrences k s ≤ 1
      → is_active key s.active ≡ false
      → any (is_key key) (FairQueue.values s.pending) ≡ false
      → count_if (is_key k) (FairQueue.values (FairQueue.add earlier key.user_id item s.pending))
          + count_if (key_eq k) s.active
        ≤ 1
  enqueued-once s k once a q = elim (Bool-cases (key_eq key k)) [
    | inl same ↦ rw (← key_eq_sound key k same) (
        ground (
          arith,
          any-count_if (key_eq key) s.active a,
          any-count_if (is_key key) (FairQueue.values s.pending) q,
          count_if-add (is_key key) earlier key.user_id item s.pending,
        ))
    | inr other ↦ ground (arith, once, count_if-add (is_key k) earlier key.user_id item s.pending)
  ]

  pub enqueue-Inv :
      (s : AnalysisScheduler) {t : AnalysisScheduler}
      → Inv s
      → enqueue key created_at credential s ≡ ok t
      → Inv t
  enqueue-Inv s v e =
      let (accepts, started, inactive, unqueued, after) = enqueue-ok s e in
      rw after (record {
        queue = add-IsValid earlier key.user_id item s.pending v.queue;
        within = v.within;
        once = λ k. enqueued-once s k (v.once k) inactive unqueued;
        idle = v.idle;
        drained = λ stopped. ground (arith, v.refusing);
        refusing = v.refusing;
        awake = ground (arith, v.awake);
      })

-- A key is scheduled once exactly when one of the two tests finds it.
occurrences_one :
    (key : AnalysisExecutionKey) (s : AnalysisScheduler)
    → Inv s
    → (occurrences key s ≡ 1)
      ↔ ((is_active key s.active || any (is_key key) (FairQueue.values s.pending)) ≡ true)
occurrences_one key s v = ground (
  arith,
  v.once key,
  any-count_if (key_eq key) s.active,
  any-count_if (is_key key) (FairQueue.values s.pending),
  count_if-any (key_eq key) s.active,
  count_if-any (is_key key) (FairQueue.values s.pending),
)

-- `enqueue` refuses exactly a scheduler that is stopped or not started, and otherwise exactly a key
-- that is queued or active.
pub enqueue-refusals :
    (key : AnalysisExecutionKey) (created_at : ℕ) (credential : Option ℕ) (s : AnalysisScheduler)
    → Inv s
    → ((enqueue key created_at credential s ≡ err scheduling_stopped)
        ↔ ((s.stopping ≡ true) ⊎ (s.loop ≡ unstarted)))
      × ((enqueue key created_at credential s ≡ err already_scheduled)
          ↔ ((s.stopping ≡ false) × (s.loop ≢ unstarted) × (occurrences key s ≡ 1)))
unfolding enqueue
enqueue-refusals key created_at credential s v =
    let one = occurrences_one key s v in
    (
      ((λ e. ground (arith, v.refusing)), λ c. ground (arith, v.refusing)),
      (
        (λ e.
            (ground (arith, v.refusing), (λ u. ground (arith, v.refusing)), one.1 (ground arith))),
        λ c. ground (arith, v.refusing, one.0 c.2),
      ),
    )
