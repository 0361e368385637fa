-- ===== src/EventHub/Invariant.antt =====
-- What holds of the hub of events.py between two of its calls.
use ldaca_wordflow_backend.Base.{
  ℕ, ◌≤◌, ◌≡◌, refl, ap, ◌∙◌, subst, inl, inr, Bool, true, false, some, List, [], ◌∷◌, arith,
  length, select, elem, IsDistinct, ◌==◌, Dict, lookup, insert, lookup-insert, Bool-cases,
}
use ldaca_wordflow_backend.EventHub.{EventSubscription, Subscriber, EventHub}
use ldaca_wordflow_backend.EventHub.Order.{IsAscending, weaken-IsAscending}

-- A stream of a hub that allows `size` entries, with all its numbers at most `hi`.
pub record IsSound (size hi : ℕ) (stream : EventSubscription) : Type 0 where
  pub bounded : length stream.queue ≤ size
  pub ascending : IsAscending 0 stream.queue hi

-- Every stream is sound, with its numbers at most the bound given for it.
abbrev pub AreSound : ℕ → (ℕ → ℕ) → Dict EventSubscription → Type 0
AreSound size bound d =
    (h : ℕ) (stream : EventSubscription) → lookup h d ≡ some stream → IsSound size (bound h) stream

abbrev pub handles : List Subscriber → List ℕ
handles [] = []
handles (x ∷ xs) = x.subscription ∷ handles xs

raise-IsSound :
    (size hi up : ℕ) (stream : EventSubscription)
    → hi ≤ up
    → IsSound size hi stream
    → IsSound size up stream
raise-IsSound size hi up stream le v = record {
  bounded = v.bounded;
  ascending = weaken-IsAscending 0 hi up stream.queue le v.ascending;
}

pub raise-AreSound :
    (size : ℕ) (bound raised : ℕ → ℕ) (d : Dict EventSubscription)
    → ((h : ℕ) → bound h ≤ raised h)
    → AreSound size bound d
    → AreSound size raised d
raise-AreSound size bound raised d le f h stream e =
    raise-IsSound size (bound h) (raised h) stream (le h) (f h stream e)

moved-IsSound :
    (size hi up : ℕ) (stream other : EventSubscription)
    → some other ≡ some stream
    → hi ≡ up
    → IsSound size hi stream
    → IsSound size up other
moved-IsSound size hi up stream other e b v =
    let same : stream.queue ≡ other.queue = ground arith in
    record {
      bounded = ground (arith, v.bounded);
      ascending =
          subst (λ q. IsAscending 0 q up) same
            (weaken-IsAscending 0 hi up stream.queue (omega arith) v.ascending);
    }

pub insert-AreSound :
    (size k : ℕ) (bound raised : ℕ → ℕ) (stream : EventSubscription) (d : Dict EventSubscription)
    → ((h : ℕ) → (k == h) ≡ false → bound h ≤ raised h)
    → IsSound size (raised k) stream
    → AreSound size bound d
    → AreSound size raised (insert k stream d)
insert-AreSound size k bound raised stream d le v f h other e = elim (Bool-cases (k == h)) [
  | inl same ↦
      moved-IsSound size (raised k) (raised h) stream other
        (ground (arith, lookup-insert k h stream d)) (ap raised (ground arith)) v
  | inr different ↦
      raise-IsSound size (bound h) (raised h) other (le h different)
        (f h other (ground (arith, lookup-insert k h stream d)))
]

elem-handles-select :
    (p : Subscriber → Bool) (h : ℕ) (xs : List Subscriber)
    → elem h (handles (select p xs)) ≡ true
    → elem h (handles xs) ≡ true
elem-handles-select p h [] e = e
elem-handles-select p h (x ∷ xs) e = ground (arith, elem-handles-select p h xs)

handles-select-IsDistinct :
    (p : Subscriber → Bool) (xs : List Subscriber)
    → IsDistinct (handles xs)
    → IsDistinct (handles (select p xs))
handles-select-IsDistinct p [] d = d
handles-select-IsDistinct p (x ∷ xs) d =
    ground (arith, handles-select-IsDistinct p xs d.1, elem-handles-select p x.subscription xs)

-- What a call other than a subscription may change beside the streams.
pub record Follows (s t : EventHub) : Type 0 where
  pub same_size : t.subscriber_queue_size ≡ s.subscriber_queue_size
  pub same_opened : t.opened ≡ s.opened
  pub no_lower : s.sequence ≤ t.sequence
  pub registered :
      (h : ℕ) → elem h (handles t.subscribers) ≡ true → elem h (handles s.subscribers) ≡ true
  pub still_distinct : IsDistinct (handles s.subscribers) → IsDistinct (handles t.subscribers)

pub same-Follows : (s : EventHub) → Follows s s
same-Follows s = record {
  same_size = refl;
  same_opened = refl;
  no_lower = omega arith;
  registered = λ h e. e;
  still_distinct = λ d. d;
}

pub streams-Follows :
    (d : Dict EventSubscription) (s : EventHub) → Follows s (record s { streams = d })
streams-Follows d s = record {
  same_size = refl;
  same_opened = refl;
  no_lower = omega arith;
  registered = λ h e. e;
  still_distinct = λ d. d;
}

pub then-Follows : (s t u : EventHub) → Follows s t → Follows t u → Follows s u
then-Follows s t u f g = record {
  same_size = g.same_size ∙ f.same_size;
  same_opened = g.same_opened ∙ f.same_opened;
  no_lower = omega (arith, f.no_lower, g.no_lower);
  registered = λ h e. f.registered h (g.registered h e);
  still_distinct = λ d. g.still_distinct (f.still_distinct d);
}

pub selected-Follows :
    (p : Subscriber → Bool) (n : ℕ) (d : Dict EventSubscription) (s : EventHub)
    → s.sequence ≤ n
    → Follows s (record s { subscribers = select p s.subscribers; sequence = n; streams = d })
selected-Follows p n d s le = record {
  same_size = refl;
  same_opened = refl;
  no_lower = le;
  registered = λ h. elem-handles-select p h s.subscribers;
  still_distinct = handles-select-IsDistinct p s.subscribers;
}
