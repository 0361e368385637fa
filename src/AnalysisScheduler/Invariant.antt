-- ===== src/AnalysisScheduler/Invariant.antt =====
-- The invariant of analysis_scheduler.py between two sections of its lock, and its preservation by
-- each of them.
use ldaca_wordflow_backend.Base.{
  ℕ, ◌+◌, ◌≤◌, ◌≡◌, true, false, not, ◌||◌, List, [], ◌∷◌, arith, select, length, is_empty,
  count_if, ok,
}
use ldaca_wordflow_backend.FairQueue
use ldaca_wordflow_backend.FairQueue.{FairUserQueue}
use ldaca_wordflow_backend.FairQueue.Invariant.{IsValid, new-IsValid, clear-IsValid}
use ldaca_wordflow_backend.AnalysisScheduler.{
  AnalysisExecutionKey, ScheduledAnalysis, AnalysisScheduler, key_eq, Loop, awaiting, resetting,
  crashed, create, start, is_key, stop_dispatch, can_dispatch, wake_up, reset, finish,
}

pub key_eq_refl : (k : AnalysisExecutionKey) → key_eq k k ≡ true
unfolding key_eq
key_eq_refl k = ground arith

pub key_eq_sound : (k j : AnalysisExecutionKey) → key_eq k j ≡ true → k ≡ j
unfolding key_eq
key_eq_sound k j h = ground arith

pub key_eq_sym : (k j : AnalysisExecutionKey) → key_eq k j ≡ key_eq j k
unfolding key_eq
key_eq_sym k j = ground arith

-- How often a key is scheduled, queued or active.
abbrev pub occurrences : AnalysisExecutionKey → AnalysisScheduler → ℕ
occurrences k s = count_if (is_key k) (FairQueue.values s.pending) + count_if (key_eq k) s.active

-- A waiting loop holds the current event, which is set if there is something to do.
abbrev pub IsAwake : Loop → AnalysisScheduler → Type 0
IsAwake (awaiting g) s = (g ≡ s.wake) × ((can_dispatch s || s.stopping) ≡ true → s.wake_set ≡ true)
IsAwake (resetting g) s = g ≡ s.wake
IsAwake crashed s = ⊥
IsAwake _ s = Unit

pub record Inv (s : AnalysisScheduler) : Type 0 where
  pub queue : IsValid s.pending
  pub within : length s.active ≤ s.capacity
  pub once : (k : AnalysisExecutionKey) → occurrences k s ≤ 1
  pub idle : s.idle_set ≡ is_empty s.active
  pub drained : s.stopping ≡ true → FairQueue.is_pending s.pending ≡ false
  pub refusing : s.accepting ≡ not s.stopping
  pub awake : IsAwake s.loop s

pub create-Inv : (capacity : ℕ) {s : AnalysisScheduler} → create capacity ≡ ok s → Inv s
unfolding create FairQueue.new
create-Inv capacity e = ground (arith, new-IsValid {T = ScheduledAnalysis})

pub start-Inv : (s : AnalysisScheduler) {t : AnalysisScheduler} → Inv s → start s ≡ ok t → Inv t
unfolding start
start-Inv s v e = ground arith

pub wake_up-Inv : (g : ℕ) (s : AnalysisScheduler) → s.loop ≡ awaiting g → Inv s → Inv (wake_up g s)
unfolding wake_up
wake_up-Inv g s l v = ground arith

pub reset-Inv : (g : ℕ) (s : AnalysisScheduler) → s.loop ≡ resetting g → Inv s → Inv (reset g s)
unfolding reset
reset-Inv g s l v = ground arith

select-not-key :
    (k j : AnalysisExecutionKey) (ks : List AnalysisExecutionKey)
    → count_if (key_eq j) (select (λ i. not (key_eq i k)) ks) ≤ count_if (key_eq j) ks
select-not-key k j [] = omega arith
select-not-key k j (i ∷ ks) = ground (arith, select-not-key k j ks)

length-select :
    (k : AnalysisExecutionKey) (ks : List AnalysisExecutionKey)
    → length (select (λ i. not (key_eq i k)) ks) ≤ length ks
length-select k [] = omega arith
length-select k (i ∷ ks) = ground (arith, length-select k ks)

pub finish-Inv : (k : AnalysisExecutionKey) (s : AnalysisScheduler) → Inv s → Inv (finish k s)
unfolding finish
finish-Inv k s v = record {
  queue = v.queue;
  within = omega (arith, v.within, length-select k s.active);
  once = λ j. omega (arith, v.once j, select-not-key k j s.active);
  idle = ground (arith, v.idle);
  drained = v.drained;
  refusing = v.refusing;
  awake = ground (arith, v.awake);
}

pub stop_dispatch-Inv : (s : AnalysisScheduler) → Inv s → Inv (stop_dispatch s).1
unfolding stop_dispatch FairQueue.clear
stop_dispatch-Inv s v = ground (arith, v.once, clear-IsValid s.pending)
