-- ===== src/ImportScheduler.antt =====
-- src/ldaca_wordflow/services/user_file_import_scheduler.py: the scheduler of User File imports, which
-- keeps a cancellation scope for each running import. Each function is one section that holds
-- `self._lock`; `anyio.Event` objects are told apart by a generation number, and a scope is the fact
-- whether it was cancelled.
pub mod History
pub mod Cancellation
pub mod Reach
mod Tests
use ldaca_wordflow_backend.Base.{
  ℕ, ◌+◌, Bool, true, false, not, ◌&&◌, ◌||◌, Option, none, some, List, [], ◌∷◌, any, select, map,
  length, is_empty, ◌==◌, ltb, if◌then◌else◌, Result, ok, err,
}
use ldaca_wordflow_backend.FairQueue
use ldaca_wordflow_backend.FairQueue.{FairUserQueue}

pub record UserFileImportKey : Type 0 where
  pub user_id : ℕ
  pub import_id : ℕ

unfoldable pub same_key : UserFileImportKey → UserFileImportKey → Bool
same_key k j = k.user_id == j.user_id && k.import_id == j.import_id

pub record ScheduledUserFileImport : Type 0 where
  pub key : UserFileImportKey
  pub created_at : ℕ

-- `_ActiveImport` under its key; `scope` says of the scope that is there whether it was cancelled.
pub record ActiveImport : Type 0 where
  pub key : UserFileImportKey
  pub scope : Option Bool
  pub cancellation_requested : Bool

-- Where `_run` stands between two sections.
pub data Loop : Type 0 where
  unstarted ready crashed returned : Loop
  awaiting resetting : ℕ → Loop

pub record UserFileImportScheduler : Type 0 where
  pub capacity : ℕ
  pub pending : FairUserQueue ScheduledUserFileImport
  pub active : List ActiveImport
  pub wake : ℕ
  pub wake_set : Bool
  pub idle_set : Bool
  pub accepting : Bool
  pub stopping : Bool
  pub loop : Loop

pub data SchedulerError : Type 0 where
  bad_capacity already_started scheduling_stopped already_scheduled : SchedulerError

pub data CancellationTarget : Type 0 where
  queued running missing : CancellationTarget

unfoldable pub create : ℕ → Result SchedulerError UserFileImportScheduler
create capacity =
    if ltb capacity 1
    then err bad_capacity
    else ok (record {
      capacity = capacity;
      pending = FairQueue.new;
      active = [];
      wake = 0;
      wake_set = false;
      idle_set = true;
      accepting = true;
      stopping = false;
      loop = unstarted;
    })

abbrev pub has_started : Loop → Bool
has_started unstarted = false
has_started _ = true

unfoldable pub start : UserFileImportScheduler → Result SchedulerError UserFileImportScheduler
start s = if has_started s.loop then err already_started else ok (record s { loop = ready })

-- `queued.key == key` and `key in self._active`
abbrev pub holds : UserFileImportKey → ScheduledUserFileImport → Bool
holds key item = same_key item.key key

abbrev pub runs : UserFileImportKey → ActiveImport → Bool
runs key active = same_key active.key key

-- The order by `(created_at, key.import_id)`.
unfoldable pub precedes_import : ScheduledUserFileImport → ScheduledUserFileImport → Bool
precedes_import x y =
    ltb x.created_at y.created_at
    || (x.created_at == y.created_at && ltb x.key.import_id y.key.import_id)

unfoldable pub enqueue :
    UserFileImportKey → ℕ → UserFileImportScheduler → Result SchedulerError UserFileImportScheduler
enqueue key created_at s =
    let item : ScheduledUserFileImport = record { key = key; created_at = created_at } in
    if not s.accepting || not (has_started s.loop)
    then err scheduling_stopped
    else if any (runs key) s.active || any (holds key) (FairQueue.values s.pending)
    then err already_scheduled
    else ok (record s {
      pending = FairQueue.add precedes_import key.user_id item s.pending;
      wake_set = true;
    })

abbrev pub cancel_scope : Option Bool → Option Bool
cancel_scope none = none
cancel_scope (some cancelled) = some true

-- The request, and `active.scope.cancel()` where there is a scope.
abbrev pub request : ActiveImport → ActiveImport
request a = record a { scope = cancel_scope a.scope; cancellation_requested = true }

abbrev pub request_key : UserFileImportKey → ActiveImport → ActiveImport
request_key key a = if runs key a then request a else a

unfoldable pub cancel :
    UserFileImportKey → UserFileImportScheduler → CancellationTarget × UserFileImportScheduler
cancel key s =
    let (removed, pending) = FairQueue.remove key.user_id (holds key) s.pending in
    if not (is_empty removed)
    then (queued, record s { pending = pending; wake_set = true })
    else if any (runs key) s.active
    then (running, record s { pending = pending; active = map (request_key key) s.active })
    else (missing, record s { pending = pending })

unfoldable pub stop_dispatch :
    UserFileImportScheduler → List ScheduledUserFileImport × UserFileImportScheduler
stop_dispatch s =
    let (cleared, pending) = FairQueue.clear s.pending in
    if s.stopping then ([], s) else (
      cleared,
      record s { accepting = false; stopping = true; pending = pending; wake_set = true },
    )

unfoldable pub cancel_active :
    UserFileImportScheduler → List UserFileImportKey × UserFileImportScheduler
cancel_active s = (map (λ a. a.key) s.active, record s { active = map request s.active })

-- `self._active[item.key] = _ActiveImport()`
abbrev pub activate : UserFileImportKey → List ActiveImport → List ActiveImport
activate key [] = record { key = key; scope = none; cancellation_requested = false } ∷ []
activate key (a ∷ active) =
    let others = activate key active in
    if runs key a
    then record { key = a.key; scope = none; cancellation_requested = false } ∷ active
    else a ∷ others

abbrev pub launch_import :
    UserFileImportScheduler
    → Option (ScheduledUserFileImport × FairUserQueue ScheduledUserFileImport)
    → Option ScheduledUserFileImport × UserFileImportScheduler
launch_import s none = (none, record s { loop = crashed })
launch_import s (some (item, pending)) = (
  some item,
  record s {
    pending = pending;
    active = activate item.key s.active;
    idle_set = if is_empty s.active then false else s.idle_set;
  },
)

-- One pass of the loop in `_run`: the item whose runner it starts, if any.
unfoldable pub dispatch :
    UserFileImportScheduler → Option ScheduledUserFileImport × UserFileImportScheduler
dispatch s =
    if s.stopping
    then (none, record s { loop = returned })
    else if FairQueue.is_pending s.pending && ltb (length s.active) s.capacity
    then launch_import s (FairQueue.pop s.pending)
    else (none, record s { loop = awaiting s.wake })

unfoldable pub wake_up : ℕ → UserFileImportScheduler → UserFileImportScheduler
wake_up captured s =
    if s.wake_set || not (captured == s.wake) then record s { loop = resetting captured } else s

unfoldable pub reset : ℕ → UserFileImportScheduler → UserFileImportScheduler
reset captured s =
    if captured == s.wake
    then record s { wake = s.wake + 1; wake_set = false; loop = ready }
    else record s { loop = ready }

-- The first section of `_run_one`: the runner's scope, cancelled at once if that was asked for.
abbrev pub enter_scope : UserFileImportKey → ActiveImport → ActiveImport
enter_scope key a = if runs key a then record a { scope = some a.cancellation_requested } else a

unfoldable pub begin_run : UserFileImportKey → UserFileImportScheduler → UserFileImportScheduler
begin_run key s = record s { active = map (enter_scope key) s.active }

-- The `finally` of `_run_one`.
unfoldable pub finish : UserFileImportKey → UserFileImportScheduler → UserFileImportScheduler
finish key s =
    let active = select (λ a. not (runs key a)) s.active in
    record s {
      active = active;
      idle_set = if is_empty active then true else s.idle_set;
      wake_set = true;
    }
