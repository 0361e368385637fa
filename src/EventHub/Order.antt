-- ===== src/EventHub/Order.antt =====
-- The numbers of the events that wait in a stream of events.py.
use ldaca_wordflow_backend.Base.{ℕ, ◌≤◌, ◌<◌, Option, none, some, List, [], ◌∷◌, ◌++◌, arith}
use ldaca_wordflow_backend.EventHub.{BackendEvent}

-- The numbers grow along the queue, are above `lo` and at most `hi`.
abbrev pub IsAscending : ℕ → List (Option BackendEvent) → ℕ → Type 0
IsAscending lo [] hi = lo ≤ hi
IsAscending lo (none ∷ q) hi = IsAscending lo q hi
IsAscending lo (some e ∷ q) hi = (lo < e.sequence) × IsAscending e.sequence q hi

pub weaken-IsAscending :
    (lo hi up : ℕ) (q : List (Option BackendEvent))
    → hi ≤ up
    → IsAscending lo q hi
    → IsAscending lo q up
weaken-IsAscending lo hi up [] le h = omega arith
weaken-IsAscending lo hi up (none ∷ q) le h = weaken-IsAscending lo hi up q le h
weaken-IsAscending lo hi up (some e ∷ q) le h = (h.0, weaken-IsAscending e.sequence hi up q le h.1)

pub snoc-IsAscending :
    (lo hi up : ℕ) (e : BackendEvent) (q : List (Option BackendEvent))
    → hi < e.sequence
    → e.sequence ≤ up
    → IsAscending lo q hi
    → IsAscending lo (q ++ some e ∷ []) up
snoc-IsAscending lo hi up e [] l u h = (omega arith, u)
snoc-IsAscending lo hi up e (none ∷ q) l u h = snoc-IsAscending lo hi up e q l u h
snoc-IsAscending lo hi up e (some f ∷ q) l u h =
    (h.0, snoc-IsAscending f.sequence hi up e q l u h.1)

lower-IsAscending :
    (lo mid hi : ℕ) (q : List (Option BackendEvent))
    → lo ≤ mid
    → IsAscending mid q hi
    → IsAscending lo q hi
lower-IsAscending lo mid hi [] le h = omega arith
lower-IsAscending lo mid hi (none ∷ q) le h = lower-IsAscending lo mid hi q le h
lower-IsAscending lo mid hi (some e ∷ q) le h = (omega arith, h.1)

-- The number of an entry is above what stands before it.
pub tail-IsAscending :
    (hi : ℕ) (e : Option BackendEvent) (q : List (Option BackendEvent))
    → IsAscending 0 (e ∷ q) hi
    → IsAscending 0 q hi
tail-IsAscending hi none q h = h
tail-IsAscending hi (some e) q h = lower-IsAscending 0 e.sequence hi q (omega arith) h.1
