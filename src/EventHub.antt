-- ===== src/EventHub.antt =====
-- src/ldaca_wordflow/services/events.py and domain/events.py: bounded delivery of refresh events.
-- Each method holds the lock for all of its work, so it is one function on the hub. A subscription
-- is a shared object: the hub keeps every stream that it made under the number that it
-- had when it was opened, and a registered `_Subscriber` names its stream by that number (its random id
-- is not used for anything else). The clock gives a time for each event that is made.
pub mod Order
pub mod Invariant
pub mod Delivery
pub mod History
mod Tests
use ldaca_wordflow_backend.Base.{
  ℕ, ◌+◌, Bool, true, false, not, ◌&&◌, ◌||◌, Option, none, some, List, [], ◌∷◌, ◌++◌, select,
  length, is_empty, ◌==◌, ltb, leb, if◌then◌else◌, Dict, lookup, insert, Result, ok, err,
}
use ldaca_wordflow_backend.Background.{BackgroundState, running, Progress, all_option}

pub data EventResourceType : Type 0 where
  workspace tab analysis user_file_import : EventResourceType

pub data RuntimeState : Type 0 where
  runtime_closed runtime_open runtime_closing : RuntimeState

-- The fields of each event beside its number and its time.
pub data EventBody : Type 0 where
  stream_ready : EventBody
  resource_changed :
      (resource_type : EventResourceType) (resource_id : ℕ) (workspace_id : Option ℕ)
      (state : Option BackgroundState) (progress : Option Progress) (revision : ℕ)
      → EventBody
  resource_progress :
      (resource_type : EventResourceType) (resource_id : ℕ) (workspace_id : Option ℕ)
      (state : BackgroundState) (progress : Progress)
      → EventBody
  resource_removed :
      (resource_type : EventResourceType) (resource_id : ℕ) (workspace_id revision : Option ℕ)
      → EventBody
  workspace_runtime_changed :
      (resource_id workspace_id : ℕ) (runtime_state : RuntimeState) → EventBody
  resync_required : EventBody

pub record BackendEvent : Type 0 where
  pub sequence : ℕ
  pub occurred_at : ℕ
  pub body : EventBody

-- An entry `none` is the end of the stream.
pub record EventSubscription : Type 0 where
  pub queue : List (Option BackendEvent)
  pub closed : Bool

pub record Subscriber : Type 0 where
  pub user_id : ℕ
  pub session_id : ℕ
  pub subscription : ℕ

pub record EventHub : Type 0 where
  pub subscriber_queue_size : ℕ
  pub subscribers : List Subscriber
  pub sequence : ℕ
  pub closed : Bool
  pub streams : Dict EventSubscription
  pub opened : ℕ

pub data HubError : Type 0 where
  size_not_positive : HubError
  hub_closed : HubError

unfoldable pub create : ℕ → Result HubError EventHub
create size =
    if ltb size 1
    then err size_not_positive
    else ok (record {
      subscriber_queue_size = size;
      subscribers = [];
      sequence = 0;
      closed = false;
      streams = [];
      opened = 0;
    })

-- A stream's new state.
abbrev pub put : ℕ → EventSubscription → EventHub → EventHub
put h stream hub = record hub { streams = insert h stream hub.streams }

abbrev pub event_of : (ℕ → ℕ) → ℕ → EventBody → BackendEvent
event_of clock sequence body = record {
  sequence = sequence;
  occurred_at = clock sequence;
  body = body;
}

-- The registration and its first event, under the number that the stream gets.
unfoldable pub subscribe : (ℕ → ℕ) → ℕ → ℕ → EventHub → Result HubError (ℕ × EventHub)
subscribe clock user_id session_id hub =
    let h = hub.opened in
    let n = hub.sequence + 1 in
    if hub.closed
    then err hub_closed
    else ok (
      h,
      record hub {
        subscribers =
            hub.subscribers
            ++ record { user_id = user_id; session_id = session_id; subscription = h } ∷ [];
        sequence = n;
        streams =
            insert h (record { queue = some (event_of clock n stream_ready) ∷ []; closed = false })
              hub.streams;
        opened = h + 1;
      },
    )

-- `_close_subscription`: what is queued is dropped for the end of the stream.
abbrev pub closing : EventSubscription → EventSubscription
closing stream = if stream.closed then stream else record { queue = none ∷ []; closed = true }

unfoldable pub close_subscription : ℕ → EventHub → EventHub
close_subscription h hub = elim (lookup h hub.streams) [
  | none ↦ hub
  | some stream ↦ put h (closing stream) hub
]

unfoldable pub close_each : List Subscriber → EventHub → EventHub
close_each [] hub = hub
close_each (x ∷ xs) hub = close_each xs (close_subscription x.subscription hub)

-- `_remove_subscription` and the removal by session.
abbrev pub unregister : (Subscriber → Bool) → EventHub → EventHub
unregister gone hub = record hub { subscribers = select (λ x. not (gone x)) hub.subscribers }

unfoldable pub unsubscribe : ℕ → EventHub → EventHub
unsubscribe h hub = close_subscription h (unregister (λ x. x.subscription == h) hub)

unfoldable pub close_session_streams : ℕ → EventHub → EventHub
close_session_streams session_id hub =
    close_each (select (λ x. x.session_id == session_id) hub.subscribers)
      (unregister (λ x. x.session_id == session_id) hub)

unfoldable pub close : EventHub → EventHub
close hub =
    if hub.closed
    then hub
    else close_each hub.subscribers (record hub { closed = true; subscribers = [] })

-- The queue is full: its content gives way to one resync event, and the stream ends.
unfoldable pub overflow : (ℕ → ℕ) → ℕ → EventHub → EventHub
overflow clock h hub =
    let n = hub.sequence + 1 in
    record hub {
      subscribers = select (λ x. not (x.subscription == h)) hub.subscribers;
      sequence = n;
      streams =
          insert h (record { queue = some (event_of clock n resync_required) ∷ []; closed = true })
            hub.streams;
    }

unfoldable pub offer : (ℕ → ℕ) → BackendEvent → ℕ → EventSubscription → EventHub → EventHub
offer clock event h stream hub =
    if ltb (length stream.queue) hub.subscriber_queue_size
    then put h (record { queue = stream.queue ++ some event ∷ []; closed = stream.closed }) hub
    else overflow clock h hub

-- `_publish_locked` for one subscriber of the copied list.
unfoldable pub deliver_to : (ℕ → ℕ) → BackendEvent → ℕ → Subscriber → EventHub → EventHub
deliver_to clock event user_id x hub = elim (lookup x.subscription hub.streams) [
  | none ↦ hub
  | some stream ↦ if x.user_id == user_id then offer clock event x.subscription stream hub else hub
]

unfoldable pub deliver : (ℕ → ℕ) → BackendEvent → ℕ → List Subscriber → EventHub → EventHub
deliver clock event user_id [] hub = hub
deliver clock event user_id (x ∷ xs) hub =
    deliver clock event user_id xs (deliver_to clock event user_id x hub)

-- The constraint on a revision: a body that breaks it raises when its event is made.
abbrev pub is_valid_body : EventBody → Bool
is_valid_body (resource_changed kind id workspace_id state progress revision) = leb 1 revision
is_valid_body (resource_removed kind id workspace_id revision) = all_option (leb 1) revision
is_valid_body _ = true

-- What the four `publish` methods share, and whether the call returns; one that raises has used up
-- a number.
unfoldable pub publish : (ℕ → ℕ) → ℕ → EventBody → EventHub → Bool × EventHub
publish clock user_id body hub =
    let n = hub.sequence + 1 in
    if is_valid_body body
    then (
      true,
      deliver clock (event_of clock n body) user_id hub.subscribers (record hub { sequence = n }),
    )
    else (false, record hub { sequence = n })

unfoldable pub publish_changed :
    (ℕ → ℕ)
    → ℕ
    → EventResourceType
    → ℕ
    → ℕ
    → Option ℕ
    → Option BackgroundState
    → Option Progress
    → EventHub
    → Bool × EventHub
publish_changed clock user_id kind id revision workspace_id state progress hub =
    publish clock user_id (resource_changed kind id workspace_id state progress revision) hub

unfoldable pub publish_removed :
    (ℕ → ℕ) → ℕ → EventResourceType → ℕ → Option ℕ → Option ℕ → EventHub → Bool × EventHub
publish_removed clock user_id kind id workspace_id revision hub =
    publish clock user_id (resource_removed kind id workspace_id revision) hub

unfoldable pub publish_progress :
    (ℕ → ℕ) → ℕ → EventResourceType → ℕ → Progress → Option ℕ → EventHub → Bool × EventHub
publish_progress clock user_id kind id progress workspace_id hub =
    publish clock user_id (resource_progress kind id workspace_id running progress) hub

unfoldable pub publish_workspace_runtime :
    (ℕ → ℕ) → ℕ → ℕ → RuntimeState → EventHub → Bool × EventHub
publish_workspace_runtime clock user_id workspace_id runtime_state hub =
    publish clock user_id (workspace_runtime_changed workspace_id workspace_id runtime_state) hub

-- What a call of `receive` finds.
pub data Received : Type 0 where
  received : Option BackendEvent → Received
  waits : Received

-- `receive` on a stream.
abbrev pub take_from : EventSubscription → Received × EventSubscription
take_from stream = elim stream.queue [
  | [] ↦ (if stream.closed then received none else waits, stream)
  | e ∷ rest ↦ (received e, record stream { queue = rest })
]

unfoldable pub receive : ℕ → EventHub → Option (Received × EventHub)
receive h hub = elim (lookup h hub.streams) [
  | none ↦ none
  | some stream ↦ some ((take_from stream).0, put h (take_from stream).1 hub)
]
