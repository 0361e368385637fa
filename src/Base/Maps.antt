-- ===== src/Base/Maps.antt =====
-- A Python dict keyed by identifiers, in insertion order.
use Prim.Native.Nat.{ℕ}
use mathlib.Core.Path.{◌≡◌, refl}
use mathlib.Core.Bool.{Bool, false}
use mathlib.Core.Option.{Option, none, some}
use mathlib.Core.List.{List, [], ◌∷◌}
use native.Mathlib.Omega.{arith}
use ldaca_wordflow_backend.Base.Tests.{◌==◌, if◌then◌else◌, is_some}

abbrev pub Dict {ℓ} : Type ℓ → Type ℓ
Dict V = List (ℕ × V)

module _ {ℓ} {V : Type ℓ} where
  -- The value stored for a key, `d.get(key)`.
  abbrev pub lookup : ℕ → Dict V → Option V
  lookup key [] = none
  lookup key ((here, value) ∷ others) =
      let further = lookup key others in if here == key then some value else further

  -- Membership, `key in d`.
  abbrev pub contains : ℕ → Dict V → Bool
  contains key d = is_some (lookup key d)

  -- Assignment, `d[key] = new`: an old key keeps its place and a new one comes last.
  abbrev pub insert : ℕ → V → Dict V → Dict V
  insert key new [] = (key, new) ∷ []
  insert key new ((here, value) ∷ others) =
      let further = insert key new others in
      if here == key then (here, new) ∷ others else (here, value) ∷ further

  -- Removal, `d.pop(key, None)`.
  abbrev pub erase : ℕ → Dict V → Dict V
  erase key [] = []
  erase key ((here, value) ∷ others) =
      let further = erase key others in if here == key then others else (here, value) ∷ further

  -- The keys of a dict are distinct.
  abbrev pub IsUnique : Dict V → Type 0
  IsUnique [] = Unit
  IsUnique (e ∷ d) = (contains e.0 d ≡ false) × IsUnique d

module _ {ℓ} {V : Type ℓ} where
  pub lookup-insert :
      (k j : ℕ) (v : V) (d : Dict V)
      → lookup j (insert k v d) ≡ (if j == k then some v else lookup j d)
  lookup-insert k j v [] = ground arith
  lookup-insert k j v (e ∷ d) = ground (arith, lookup-insert k j v d)

  pub contains-none : (k : ℕ) (d : Dict V) → contains k d ≡ false → lookup k d ≡ none
  contains-none k d h = ground arith

  pub lookup-erase :
      (k j : ℕ) (d : Dict V)
      → IsUnique d
      → lookup j (erase k d) ≡ (if j == k then none else lookup j d)
  lookup-erase k j [] h = ground arith
  lookup-erase k j (e ∷ d) h = ground (arith, lookup-erase k j d h.1, contains-none e.0 d h.0)

  pub insert-IsUnique : (k : ℕ) (v : V) (d : Dict V) → IsUnique d → IsUnique (insert k v d)
  insert-IsUnique k v [] h = (refl, tt)
  insert-IsUnique k v (e ∷ d) h = ground (arith, insert-IsUnique k v d h.1, lookup-insert k e.0 v d)

  pub erase-IsUnique : (k : ℕ) (d : Dict V) → IsUnique d → IsUnique (erase k d)
  erase-IsUnique k [] h = tt
  erase-IsUnique k (e ∷ d) h = ground (arith, erase-IsUnique k d h.1, lookup-erase k e.0 d h.1)
