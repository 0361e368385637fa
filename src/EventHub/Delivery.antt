-- ===== src/EventHub/Delivery.antt =====
-- Publication in events.py: what happens to the streams of the registered subscribers.
use ldaca_wordflow_backend.Base.{
  ℕ, ◌+◌, ◌≤◌, ◌<◌, ◌≡◌, inl, inr, true, false, not, some, List, [], ◌∷◌, ◌++◌, arith, length,
  length-append, elem, IsDistinct, ◌==◌, ltb, if◌then◌else◌, lookup, insert, Option-cases,
  Bool-cases,
}
use ldaca_wordflow_backend.EventHub.{
  BackendEvent, EventSubscription, Subscriber, EventHub, overflow, offer, deliver_to, deliver,
  event_of, resync_required,
}
use ldaca_wordflow_backend.EventHub.Order.{weaken-IsAscending, snoc-IsAscending}
use ldaca_wordflow_backend.EventHub.Invariant.{
  AreSound, handles, raise-AreSound, insert-AreSound, Follows, same-Follows, then-Follows,
  streams-Follows, selected-Follows,
}

-- While an event is delivered, the streams that still wait for it have numbers up to `lo`.
abbrev pub waiting_bound : ℕ → List ℕ → ℕ → ℕ → ℕ
waiting_bound lo late hi h = if elem h late then lo else hi

abbrev pub Delivers : ℕ → List ℕ → EventHub → EventHub → Type 0
Delivers lo late s t =
    Follows s t × AreSound t.subscriber_queue_size (waiting_bound lo late t.sequence) t.streams

module _ (clock : ℕ → ℕ) (event : BackendEvent) (lo : ℕ) (fresh : lo < event.sequence) where
  overflow-Delivers :
      (k : ℕ) (late : List ℕ) (s : EventHub)
      → 1 ≤ s.subscriber_queue_size
      → event.sequence ≤ s.sequence
      → elem k late ≡ false
      → AreSound s.subscriber_queue_size (waiting_bound lo (k ∷ late) s.sequence) s.streams
      → Delivers lo late s (overflow clock k s)
  unfolding overflow
  overflow-Delivers k late s pos le out v =
      let n = s.sequence + 1 in
      let stream : EventSubscription = record {
        queue = some (event_of clock n resync_required) ∷ [];
        closed = true;
      } in
      (
        selected-Follows (λ x. not (x.subscription == k)) n (insert k stream s.streams) s
            (omega arith),
        insert-AreSound s.subscriber_queue_size k (waiting_bound lo (k ∷ late) s.sequence)
            (waiting_bound lo late n) stream s.streams (λ h e. ground arith)
            (record { bounded = pos; ascending = ground arith }) v,
      )

  offer-Delivers :
      (k : ℕ) (late : List ℕ) (stream : EventSubscription) (s : EventHub)
      → 1 ≤ s.subscriber_queue_size
      → event.sequence ≤ s.sequence
      → elem k late ≡ false
      → lookup k s.streams ≡ some stream
      → AreSound s.subscriber_queue_size (waiting_bound lo (k ∷ late) s.sequence) s.streams
      → Delivers lo late s (offer clock event k stream s)
  unfolding offer
  offer-Delivers k late stream s pos le out e v =
      let old = v k stream e in
      let longer : EventSubscription = record {
        queue = stream.queue ++ some event ∷ [];
        closed = stream.closed;
      } in
      elim (Bool-cases (ltb (length stream.queue) s.subscriber_queue_size)) [
        | inl fits ↦ rw fits (
          streams-Follows (insert k longer s.streams) s,
          insert-AreSound s.subscriber_queue_size k (waiting_bound lo (k ∷ late) s.sequence)
              (waiting_bound lo late s.sequence) longer s.streams (λ h f. ground arith)
              (record {
                bounded = ground (arith, length-append stream.queue (some event ∷ []));
                ascending =
                    snoc-IsAscending 0 lo (waiting_bound lo late s.sequence k) event stream.queue
                      fresh (ground arith)
                      (weaken-IsAscending 0 (waiting_bound lo (k ∷ late) s.sequence k) lo
                        stream.queue (ground arith) old.ascending);
              })
              v,
        )
        | inr full ↦ rw full (overflow-Delivers k late s pos le out v)
      ]

  skip-Delivers :
      (k : ℕ) (late : List ℕ) (s : EventHub)
      → event.sequence ≤ s.sequence
      → AreSound s.subscriber_queue_size (waiting_bound lo (k ∷ late) s.sequence) s.streams
      → Delivers lo late s s
  skip-Delivers k late s le v = (
    same-Follows s,
    raise-AreSound s.subscriber_queue_size (waiting_bound lo (k ∷ late) s.sequence)
        (waiting_bound lo late s.sequence) s.streams (λ h. ground arith) v,
  )

  deliver_to-Delivers :
      (user : ℕ) (x : Subscriber) (late : List ℕ) (s : EventHub)
      → 1 ≤ s.subscriber_queue_size
      → event.sequence ≤ s.sequence
      → elem x.subscription late ≡ false
      → AreSound s.subscriber_queue_size
          (waiting_bound lo (x.subscription ∷ late) s.sequence)
          s.streams
      → Delivers lo late s (deliver_to clock event user x s)
  unfolding deliver_to
  deliver_to-Delivers user x late s pos le out v =
      elim (Option-cases (lookup x.subscription s.streams)) [
        | inl unknown ↦ rw (unknown, deliver_to) (skip-Delivers x.subscription late s le v)
        | inr (stream, e) ↦ elim (Bool-cases (x.user_id == user)) [
          | inl own ↦
              rw (e, deliver_to, own) (offer-Delivers x.subscription late stream s pos le out e v)
          | inr foreign ↦ rw (e, deliver_to, foreign) (skip-Delivers x.subscription late s le v)
        ]
      ]

  pub deliver-Delivers :
      (user : ℕ) (xs : List Subscriber) (s : EventHub)
      → 1 ≤ s.subscriber_queue_size
      → event.sequence ≤ s.sequence
      → IsDistinct (handles xs)
      → AreSound s.subscriber_queue_size (waiting_bound lo (handles xs) s.sequence) s.streams
      → Delivers lo [] s (deliver clock event user xs s)
  unfolding deliver
  deliver-Delivers user [] s pos le d v = (same-Follows s, v)
  deliver-Delivers user (x ∷ xs) s pos le d v =
      let t = deliver_to clock event user x s in
      let first = deliver_to-Delivers user x (handles xs) s pos le d.0 v in
      let others =
        deliver-Delivers user xs t (ground (arith, first.0.same_size))
          (omega (arith, first.0.no_lower)) d.1 first.1 in
      (then-Follows s t (deliver clock event user xs t) first.0 others.0, others.1)
