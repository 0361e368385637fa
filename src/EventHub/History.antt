-- ===== src/EventHub/History.antt =====
-- Every history of calls on the hub of events.py keeps its streams bounded and in order.
use ldaca_wordflow_backend.Base.{
  ℕ, ◌+◌, ◌≤◌, ◌<◌, ◌≡◌, refl, subst, inl, inr, Bool, true, false, not, ◌||◌, Option, none, some,
  List, [], ◌∷◌, ◌++◌, arith, select, elem, IsDistinct, ◌==◌, lookup, insert, Option-cases,
  split_if, Result, ok, err,
}
use ldaca_wordflow_backend.EventHub.{
  BackendEvent, EventBody, EventSubscription, Subscriber, EventHub, HubError, create, subscribe,
  put, closing, close_subscription, close_each, unregister, unsubscribe, close_session_streams,
  close, is_valid_body, publish, Received, receive, take_from, deliver, event_of, stream_ready,
}
use ldaca_wordflow_backend.EventHub.Order.{tail-IsAscending}
use ldaca_wordflow_backend.EventHub.Invariant.{
  IsSound, AreSound, handles, raise-AreSound, insert-AreSound, Follows, streams-Follows,
  selected-Follows,
}
use ldaca_wordflow_backend.EventHub.Delivery.{waiting_bound, deliver-Delivers}

pub record IsSoundHub (hub : EventHub) : Type 0 where
  pub positive : 1 ≤ hub.subscriber_queue_size
  pub distinct : IsDistinct (handles hub.subscribers)
  pub allocated : (h : ℕ) → elem h (handles hub.subscribers) ≡ true → h < hub.opened
  pub sound : AreSound hub.subscriber_queue_size (λ h. hub.sequence) hub.streams

Follows-IsSoundHub :
    (s t : EventHub)
    → IsSoundHub s
    → Follows s t
    → AreSound t.subscriber_queue_size (λ h. t.sequence) t.streams
    → IsSoundHub t
Follows-IsSoundHub s t v f w = record {
  positive = ground (arith, f.same_size, v.positive);
  distinct = f.still_distinct v.distinct;
  allocated = λ h e. ground (arith, f.same_opened, v.allocated h (f.registered h e));
  sound = w;
}

publish-IsSoundHub :
    (clock : ℕ → ℕ) (user : ℕ) (body : EventBody) (s : EventHub)
    → IsSoundHub s
    → IsSoundHub (publish clock user body s).1
unfolding publish
publish-IsSoundHub clock user body s v =
    let n = s.sequence + 1 in
    let t : EventHub = record s { sequence = n } in
    let numbered : IsSoundHub t =
      Follows-IsSoundHub s t v
        (record {
          same_size = refl;
          same_opened = refl;
          no_lower = omega arith;
          registered = λ h e. e;
          still_distinct = λ d. d;
        })
        (raise-AreSound s.subscriber_queue_size (λ h. s.sequence) (λ h. n) s.streams
          (λ h. omega arith) v.sound) in
    let result =
      deliver-Delivers clock (event_of clock n body) s.sequence (omega arith) user s.subscribers t
        v.positive (omega arith) v.distinct
        (raise-AreSound s.subscriber_queue_size (λ h. s.sequence)
          (waiting_bound s.sequence (handles s.subscribers) n) s.streams (λ h. ground arith)
          v.sound) in
    split_if (λ (o : Bool × EventHub). IsSoundHub o.1) (is_valid_body body)
      (λ e.
        Follows-IsSoundHub t (deliver clock (event_of clock n body) user s.subscribers t) numbered
          result.0 result.1)
      (λ e. numbered)

closing-IsSound :
    (size hi : ℕ) (stream : EventSubscription)
    → 1 ≤ size
    → IsSound size hi stream
    → IsSound size hi (closing stream)
closing-IsSound size hi stream pos v =
    split_if (IsSound size hi) stream.closed (λ e. v)
      (λ e. record { bounded = pos; ascending = omega arith })

close_subscription-IsSoundHub :
    (h : ℕ) (s : EventHub) → IsSoundHub s → IsSoundHub (close_subscription h s)
unfolding close_subscription
close_subscription-IsSoundHub h s v = elim (Option-cases (lookup h s.streams)) [
  | inl unknown ↦ rw (unknown, close_subscription) v
  | inr (stream, e) ↦
      rw (e, close_subscription)
        (Follows-IsSoundHub s (put h (closing stream) s) v
          (streams-Follows (insert h (closing stream) s.streams) s)
          (insert-AreSound s.subscriber_queue_size h (λ j. s.sequence) (λ j. s.sequence)
            (closing stream) s.streams (λ j f. omega arith)
            (closing-IsSound s.subscriber_queue_size s.sequence stream v.positive
              (v.sound h stream e))
            v.sound))
]

close_each-IsSoundHub :
    (xs : List Subscriber) (s : EventHub) → IsSoundHub s → IsSoundHub (close_each xs s)
unfolding close_each
close_each-IsSoundHub [] s v = v
close_each-IsSoundHub (x ∷ xs) s v =
    close_each-IsSoundHub xs (close_subscription x.subscription s)
      (close_subscription-IsSoundHub x.subscription s v)

unregister-IsSoundHub :
    (gone : Subscriber → Bool) (s : EventHub) → IsSoundHub s → IsSoundHub (unregister gone s)
unregister-IsSoundHub gone s v =
    Follows-IsSoundHub s (unregister gone s) v
      (selected-Follows (λ x. not (gone x)) s.sequence s.streams s (omega arith)) v.sound

close-IsSoundHub : (s : EventHub) → IsSoundHub s → IsSoundHub (close s)
unfolding close
close-IsSoundHub s v =
    let emptied : EventHub = record s { closed = true; subscribers = [] } in
    split_if IsSoundHub s.closed (λ e. v)
      (λ e. close_each-IsSoundHub s.subscribers emptied (record {
        positive = v.positive;
        distinct = tt;
        allocated = λ h e. ground arith;
        sound = v.sound;
      }))

elem-handles_snoc :
    (h : ℕ) (xs : List Subscriber) (x : Subscriber)
    → elem h (handles (xs ++ x ∷ [])) ≡ (elem h (handles xs) || h == x.subscription)
elem-handles_snoc h [] x = ground arith
elem-handles_snoc h (y ∷ xs) x = ground (arith, elem-handles_snoc h xs x)

handles_snoc-IsDistinct :
    (xs : List Subscriber) (x : Subscriber)
    → IsDistinct (handles xs)
    → elem x.subscription (handles xs) ≡ false
    → IsDistinct (handles (xs ++ x ∷ []))
handles_snoc-IsDistinct [] x d e = (refl, tt)
handles_snoc-IsDistinct (y ∷ xs) x d e =
    ground (arith, handles_snoc-IsDistinct xs x d.1, elem-handles_snoc y.subscription xs x)

-- What a call leaves of the hub; a call that raises leaves all of it.
abbrev pub after_subscribe : EventHub → Result HubError (ℕ × EventHub) → EventHub
after_subscribe s (ok t) = t.1
after_subscribe s (err e) = s

subscribed-IsSoundHub :
    (clock : ℕ → ℕ) (user session : ℕ) (s : EventHub)
    → IsSoundHub s
    → IsSoundHub (after_subscribe s (subscribe clock user session s))
unfolding subscribe
subscribed-IsSoundHub clock user session s v =
    let n = s.sequence + 1 in
    let x : Subscriber = record { user_id = user; session_id = session; subscription = s.opened } in
    let stream : EventSubscription = record {
      queue = some (event_of clock n stream_ready) ∷ [];
      closed = false;
    } in
    split_if (λ r. IsSoundHub (after_subscribe s r)) s.closed (λ e. v)
      (λ e. record {
        positive = v.positive;
        distinct =
            handles_snoc-IsDistinct s.subscribers x v.distinct
              (ground (arith, v.allocated s.opened));
        allocated = λ h e. ground (arith, v.allocated h, elem-handles_snoc h s.subscribers x);
        sound =
            insert-AreSound s.subscriber_queue_size s.opened (λ j. s.sequence) (λ j. n) stream
              s.streams (λ j f. omega arith)
              (record { bounded = v.positive; ascending = (omega arith, omega arith) }) v.sound;
      })

abbrev pub after_receive : EventHub → Option (Received × EventHub) → EventHub
after_receive s none = s
after_receive s (some t) = t.1

take_from-IsSound :
    (size hi : ℕ) (q : List (Option BackendEvent)) (closed : Bool)
    → IsSound size hi (record { queue = q; closed = closed })
    → IsSound size hi (take_from (record { queue = q; closed = closed })).1
take_from-IsSound size hi [] closed v = v
take_from-IsSound size hi (e ∷ q) closed v = record {
  bounded = omega (arith, v.bounded);
  ascending = tail-IsAscending hi e q v.ascending;
}

received-IsSoundHub :
    (h : ℕ) (s : EventHub) → IsSoundHub s → IsSoundHub (after_receive s (receive h s))
unfolding receive
received-IsSoundHub h s v = elim (Option-cases (lookup h s.streams)) [
  | inl unknown ↦ rw (unknown, receive) v
  | inr (stream, e) ↦
      rw (e, receive)
        (Follows-IsSoundHub s (put h (take_from stream).1 s) v
          (streams-Follows (insert h (take_from stream).1 s.streams) s)
          (insert-AreSound s.subscriber_queue_size h (λ j. s.sequence) (λ j. s.sequence)
            (take_from stream).1 s.streams (λ j f. omega arith)
            (take_from-IsSound s.subscriber_queue_size s.sequence stream.queue stream.closed
              (v.sound h stream e))
            v.sound))
]

-- The calls of the hub; a publication stands for the four methods by the body that they give it.
pub data Call : Type 0 where
  subscribing : (user_id session_id : ℕ) → Call
  unsubscribing : (stream : ℕ) → Call
  closing_session : (session_id : ℕ) → Call
  publishing : (user_id : ℕ) (body : EventBody) → Call
  receiving : (stream : ℕ) → Call
  closing_hub : Call

abbrev pub step : (ℕ → ℕ) → Call → EventHub → EventHub
step clock (subscribing u i) s = after_subscribe s (subscribe clock u i s)
step clock (unsubscribing h) s = unsubscribe h s
step clock (closing_session i) s = close_session_streams i s
step clock (publishing u body) s = (publish clock u body s).1
step clock (receiving h) s = after_receive s (receive h s)
step clock closing_hub s = close s

abbrev pub run : (ℕ → ℕ) → List Call → EventHub → EventHub
run clock [] s = s
run clock (c ∷ cs) s = run clock cs (step clock c s)

step-IsSoundHub :
    (clock : ℕ → ℕ) (c : Call) (s : EventHub) → IsSoundHub s → IsSoundHub (step clock c s)
unfolding unsubscribe close_session_streams
step-IsSoundHub clock (subscribing u i) s v = subscribed-IsSoundHub clock u i s v
step-IsSoundHub clock (unsubscribing h) s v =
    close_subscription-IsSoundHub h (unregister (λ x. x.subscription == h) s)
      (unregister-IsSoundHub (λ x. x.subscription == h) s v)
step-IsSoundHub clock (closing_session i) s v =
    close_each-IsSoundHub (select (λ x. x.session_id == i) s.subscribers)
      (unregister (λ x. x.session_id == i) s) (unregister-IsSoundHub (λ x. x.session_id == i) s v)
step-IsSoundHub clock (publishing u body) s v = publish-IsSoundHub clock u body s v
step-IsSoundHub clock (receiving h) s v = received-IsSoundHub h s v
step-IsSoundHub clock closing_hub s v = close-IsSoundHub s v

run_from-IsSoundHub :
    (clock : ℕ → ℕ) (cs : List Call) (s : EventHub) → IsSoundHub s → IsSoundHub (run clock cs s)
run_from-IsSoundHub clock [] s v = v
run_from-IsSoundHub clock (c ∷ cs) s v =
    run_from-IsSoundHub clock cs (step clock c s) (step-IsSoundHub clock c s v)

abbrev new_hub : ℕ → EventHub
new_hub size = record {
  subscriber_queue_size = size;
  subscribers = [];
  sequence = 0;
  closed = false;
  streams = [];
  opened = 0;
}

new_hub-IsSoundHub : (size : ℕ) → 1 ≤ size → IsSoundHub (new_hub size)
new_hub-IsSoundHub size pos = record {
  positive = pos;
  distinct = tt;
  allocated = λ h e. ground arith;
  sound = λ h stream e. ground arith;
}

-- After any calls on a new hub, every stream holds at most as many entries as the hub allows, the
-- numbers of its events grow along it and none is above the last number given, and no stream is
-- registered twice.
pub run-IsSoundHub :
    (clock : ℕ → ℕ) (size : ℕ) (cs : List Call) (s : EventHub)
    → create size ≡ ok s
    → IsSoundHub (run clock cs s)
unfolding create
run-IsSoundHub clock size cs s e =
    run_from-IsSoundHub clock cs s
      (subst IsSoundHub {x = new_hub size} (ground arith) (new_hub-IsSoundHub size (ground arith)))
