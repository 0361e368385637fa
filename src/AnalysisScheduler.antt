-- ===== src/AnalysisScheduler.antt =====
-- src/ldaca_wordflow/services/analysis_scheduler.py: capacity-bounded dispatch of queued Analyses.
-- Each function is one section of the class that holds `self._lock`, so a history of the scheduler
-- is a sequence of calls (`Action`). `anyio.Event` objects are told apart by a generation number;
-- an event is replaced only after it was set, so a captured event of another generation is set.
-- Identifiers, timestamps and credentials are numbers: they are only compared or handed on. (The
-- Analysis id is a canonical UUID text, whose order is that of its number.)
pub mod Invariant
pub mod Enqueue
pub mod Steps
pub mod Dispatch
pub mod Cancellation
mod Tests
use ldaca_wordflow_backend.Base.{
  ℕ, ◌+◌, Bool, true, false, not, ◌&&◌, ◌||◌, Option, none, some, List, [], ◌∷◌, ◌++◌, any, select,
  length, is_empty, is_some, ◌==◌, ltb, if◌then◌else◌, Result, ok, err,
}
use ldaca_wordflow_backend.FairQueue
use ldaca_wordflow_backend.FairQueue.{FairUserQueue}

pub record AnalysisExecutionKey : Type 0 where
  pub user_id : ℕ
  pub workspace_id : ℕ
  pub analysis_id : ℕ

-- `==` on the frozen dataclass
unfoldable pub key_eq : AnalysisExecutionKey → AnalysisExecutionKey → Bool
key_eq k j =
    k.user_id == j.user_id && k.workspace_id == j.workspace_id && k.analysis_id == j.analysis_id

pub record ScheduledAnalysis : Type 0 where
  pub key : AnalysisExecutionKey
  pub created_at : ℕ
  pub credential : Option ℕ

-- The order by `(created_at, key.analysis_id)`.
unfoldable pub earlier : ScheduledAnalysis → ScheduledAnalysis → Bool
earlier x y =
    ltb x.created_at y.created_at
    || (x.created_at == y.created_at && ltb x.key.analysis_id y.key.analysis_id)

-- Where the dispatch loop `_run` stands between two sections of the lock.
pub data Loop : Type 0 where
  unstarted : Loop
  ready : Loop
  awaiting : ℕ → Loop
  resetting : ℕ → Loop
  returned : Loop
  crashed : Loop

pub record AnalysisScheduler : Type 0 where
  pub capacity : ℕ
  pub pending : FairUserQueue ScheduledAnalysis
  pub active : List AnalysisExecutionKey
  pub wake : ℕ
  pub wake_set : Bool
  pub idle_set : Bool
  pub accepting : Bool
  pub stopping : Bool
  pub loop : Loop

pub data SchedulerError : Type 0 where
  bad_capacity already_started scheduling_stopped already_scheduled : SchedulerError

-- `__init__`
unfoldable pub create : ℕ → Result SchedulerError AnalysisScheduler
create capacity =
    if ltb capacity 1
    then err bad_capacity
    else ok (record {
      capacity = capacity;
      pending = FairQueue.new;
      active = [];
      wake = 0;
      wake_set = false;
      idle_set = true;
      accepting = true;
      stopping = false;
      loop = unstarted;
    })

-- `self._task_group is not None`
abbrev pub is_started : Loop → Bool
is_started unstarted = false
is_started _ = true

unfoldable pub start : AnalysisScheduler → Result SchedulerError AnalysisScheduler
start s = if is_started s.loop then err already_started else ok (record s { loop = ready })

abbrev pub is_key : AnalysisExecutionKey → ScheduledAnalysis → Bool
is_key key item = key_eq item.key key

abbrev pub is_active : AnalysisExecutionKey → List AnalysisExecutionKey → Bool
is_active key = any (key_eq key)

unfoldable pub enqueue :
    AnalysisExecutionKey
    → ℕ
    → Option ℕ
    → AnalysisScheduler
    → Result SchedulerError AnalysisScheduler
enqueue key created_at credential s =
    let item : ScheduledAnalysis = record {
      key = key;
      created_at = created_at;
      credential = credential;
    } in
    if not s.accepting || not (is_started s.loop)
    then err scheduling_stopped
    else if is_active key s.active || any (is_key key) (FairQueue.values s.pending)
    then err already_scheduled
    else ok
        (record s { pending = FairQueue.add earlier key.user_id item s.pending; wake_set = true })

-- What `cancel` calls once it has left the lock.
pub data CancelCall : Type 0 where
  work_removed : AnalysisExecutionKey → CancelCall
  cancel_running : AnalysisExecutionKey → CancelCall
  no_call : CancelCall

unfoldable pub cancel : AnalysisExecutionKey → AnalysisScheduler → CancelCall × AnalysisScheduler
cancel key s =
    let (removed, pending) = FairQueue.remove key.user_id (is_key key) s.pending in
    (
      if not (is_empty removed)
          then work_removed key
          else if is_active key s.active
          then cancel_running key
          else no_call,
      record s { pending = pending; wake_set = if is_empty removed then s.wake_set else true },
    )

abbrev pub in_workspace : ℕ → ScheduledAnalysis → Bool
in_workspace workspace_id item = item.key.workspace_id == workspace_id

abbrev pub active_in : ℕ → ℕ → AnalysisExecutionKey → Bool
active_in user_id workspace_id key = key.user_id == user_id && key.workspace_id == workspace_id

unfoldable pub has_workspace_work : ℕ → ℕ → AnalysisScheduler → Bool
has_workspace_work user_id workspace_id s =
    any (in_workspace workspace_id) (FairQueue.items_for user_id s.pending)
    || any (active_in user_id workspace_id) s.active

-- `for item in queued: self._pending.remove(...)`
unfoldable pub remove_each :
    ℕ → List ScheduledAnalysis → FairUserQueue ScheduledAnalysis → FairUserQueue ScheduledAnalysis
remove_each user_id [] q = q
remove_each user_id (item ∷ items) q =
    remove_each user_id items (FairQueue.remove user_id (is_key item.key) q).1

-- The keys whose runners are then signalled, and the scheduler.
unfoldable pub cancel_workspace :
    ℕ → ℕ → AnalysisScheduler → List AnalysisExecutionKey × AnalysisScheduler
cancel_workspace user_id workspace_id s =
    let queued = select (in_workspace workspace_id) (FairQueue.items_for user_id s.pending) in
    (
      select (active_in user_id workspace_id) s.active,
      record s {
        pending = remove_each user_id queued s.pending;
        wake_set = if is_empty queued then s.wake_set else true;
      },
    )

unfoldable pub stop_dispatch : AnalysisScheduler → List ScheduledAnalysis × AnalysisScheduler
stop_dispatch s =
    let (queued, pending) = FairQueue.clear s.pending in
    if s.stopping then ([], s) else (
      queued,
      record s { pending = pending; wake_set = true; accepting = false; stopping = true },
    )

-- `self._active.add(key)`
abbrev pub add_active : AnalysisExecutionKey → List AnalysisExecutionKey → List AnalysisExecutionKey
add_active key active = if is_active key active then active else active ++ key ∷ []

-- `self._pending and len(self._active) < self._capacity`
abbrev pub can_dispatch : AnalysisScheduler → Bool
can_dispatch s = FairQueue.is_pending s.pending && ltb (length s.active) s.capacity

-- The item that `pop` gave is made active and its runner started.
launch :
    AnalysisScheduler
    → Option (ScheduledAnalysis × FairUserQueue ScheduledAnalysis)
    → Option ScheduledAnalysis × AnalysisScheduler
launch s none = (none, record s { loop = crashed })
launch s (some (item, pending)) = (
  some item,
  record s {
    pending = pending;
    active = add_active item.key s.active;
    idle_set = if is_empty s.active then false else s.idle_set;
  },
)

-- One pass of the loop in `_run`: the item whose runner it starts, if any.
unfoldable pub dispatch : AnalysisScheduler → Option ScheduledAnalysis × AnalysisScheduler
unfolding launch
dispatch s =
    if s.stopping
    then (none, record s { loop = returned })
    else if can_dispatch s
    then launch s (FairQueue.pop s.pending)
    else (none, record s { loop = awaiting s.wake })

-- `await wake.wait()` returns once the captured event is set.
unfoldable pub wake_up : ℕ → AnalysisScheduler → AnalysisScheduler
wake_up captured s =
    if s.wake_set || not (captured == s.wake) then record s { loop = resetting captured } else s

-- `if self._wake is wake: self._wake = anyio.Event()`
unfoldable pub reset : ℕ → AnalysisScheduler → AnalysisScheduler
reset captured s =
    if captured == s.wake
    then record s { wake = s.wake + 1; wake_set = false; loop = ready }
    else record s { loop = ready }

-- The `finally` of `_run_one`, however the runner ended.
unfoldable pub finish : AnalysisExecutionKey → AnalysisScheduler → AnalysisScheduler
finish key s =
    let active = select (λ k. not (key_eq k key)) s.active in
    record s {
      active = active;
      idle_set = if is_empty active then true else s.idle_set;
      wake_set = true;
    }
