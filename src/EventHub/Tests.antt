-- ===== src/EventHub/Tests.antt =====
-- events.py at concrete inputs.
use ldaca_wordflow_backend.Base.{ℕ, ◌≡◌, refl, some, List, [], ◌∷◌, lookup, true, false}
use ldaca_wordflow_backend.EventHub.{
  EventHub, create, subscribe, publish, deliver, deliver_to, offer, overflow, receive,
  resync_required, workspace_runtime_changed, runtime_open,
}
use ldaca_wordflow_backend.EventHub.History.{
  IsSoundHub, Call, subscribing, publishing, receiving, run, run-IsSoundHub,
}

abbrev clock : ℕ → ℕ
clock n = n

abbrev start : EventHub
start = record {
  subscriber_queue_size = 2;
  subscribers = [];
  sequence = 0;
  closed = false;
  streams = [];
  opened = 0;
}

abbrev calls : List Call
calls =
    subscribing 1 10
    ∷ subscribing 2 20
    ∷ publishing 1 (workspace_runtime_changed 5 5 runtime_open)
    ∷ publishing 1 (workspace_runtime_changed 5 5 runtime_open)
    ∷ receiving 1
    ∷ []

-- The first stream of two entries overflows at the second publication.
overflowed :
    lookup 0 (run clock calls start).streams
    ≡ some (record {
      queue = some (record { sequence = 5; occurred_at = 5; body = resync_required }) ∷ [];
      closed = true;
    })
unfolding subscribe publish deliver deliver_to offer overflow receive
overflowed = refl

run-IsSoundHub_example : IsSoundHub (run clock calls start)
unfolding create
run-IsSoundHub_example = run-IsSoundHub clock 2 calls start refl
