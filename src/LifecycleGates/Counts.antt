-- ===== src/LifecycleGates/Counts.antt =====
-- How many calls pass a test, after a change of one of them.
use ldaca_wordflow_backend.Base.{
  ℕ, ◌+◌, ◌≤◌, ◌≡◌, arith, Bool, false, Option, none, some, [], ◌∷◌, count_if, ◌==◌, ==_iff,
  if◌then◌else◌, Dict, lookup, insert, erase,
}
use ldaca_wordflow_backend.LifecycleGates.{Call}

abbrev pub count_calls : (Call → Bool) → Dict Call → ℕ
count_calls p d = count_if (λ e. p e.1) d

abbrev pub one_if : (Call → Bool) → Option Call → ℕ
one_if p none = 0
one_if p (some c) = if p c then 1 else 0

pub count_calls-insert :
    (p : Call → Bool) (k : ℕ) (c : Call) (d : Dict Call)
    → count_calls p (insert k c d) + one_if p (lookup k d) ≡ count_calls p d + one_if p (some c)
count_calls-insert p k c [] = ground arith
count_calls-insert p k c (e ∷ d) = ground (arith, count_calls-insert p k c d)

pub count_calls-erase :
    (p : Call → Bool) (k : ℕ) (d : Dict Call)
    → count_calls p (erase k d) + one_if p (lookup k d) ≡ count_calls p d
count_calls-erase p k [] = ground arith
count_calls-erase p k (e ∷ d) = ground (arith, count_calls-erase p k d)

pub one_if-count_calls :
    (p : Call → Bool) (k : ℕ) (d : Dict Call) → one_if p (lookup k d) ≤ count_calls p d
one_if-count_calls p k [] = ground arith
one_if-count_calls p k (e ∷ d) = ground (arith, one_if-count_calls p k d)

-- Two calls that pass are counted twice.
pub two-count_calls :
    (p : Call → Bool) (j k : ℕ) (d : Dict Call)
    → (j == k) ≡ false
    → one_if p (lookup j d) + one_if p (lookup k d) ≤ count_calls p d
two-count_calls p j k [] n = ground arith
two-count_calls p j k (e ∷ d) n = ground (
  arith,
  two-count_calls p j k d n,
  one_if-count_calls p j d,
  one_if-count_calls p k d,
  ==_iff e.0 j,
  ==_iff e.0 k,
  ==_iff j k,
)
