-- ===== src/Base/Lists.antt =====
-- Lists measured and searched by native numbers, under the library's names where it has them.
use Prim.Native.Nat.{ℕ, suc, ◌+◌}
use mathlib.Core.Path.{◌≡◌, refl}
use mathlib.Core.Bool.{Bool, true, false, ◌||◌, ◌&&◌, not}
use mathlib.Core.List.{List, [], ◌∷◌, ◌++◌}
use native.Mathlib.Omega.{arith}
use ldaca_wordflow_backend.Base.Tests.{◌==◌, if◌then◌else◌}

module _ {ℓ} {A : Type ℓ} where
  abbrev pub length : List A → ℕ
  length [] = 0
  length (x ∷ xs) = suc (length xs)

  -- How many elements pass a test.
  abbrev pub count_if : (A → Bool) → List A → ℕ
  count_if p [] = 0
  count_if p (x ∷ xs) = (if p x then 1 else 0) + count_if p xs

  -- `[x for x in xs if p(x)]`
  abbrev pub select : (A → Bool) → List A → List A
  select p [] = []
  select p (x ∷ xs) = let rest = select p xs in if p x then x ∷ rest else rest

  -- `any(p(x) for x in xs)`
  abbrev pub any : (A → Bool) → List A → Bool
  any p [] = false
  any p (x ∷ xs) = p x || any p xs

  -- `all(p(x) for x in xs)`
  abbrev pub all : (A → Bool) → List A → Bool
  all p [] = true
  all p (x ∷ xs) = p x && all p xs

  -- Every element satisfies a predicate.
  abbrev pub All {κ} : (A → Type κ) → List A → Type κ
  All P [] = Unit
  All P (x ∷ xs) = P x × All P xs

  abbrev pub is_empty : List A → Bool
  is_empty [] = true
  is_empty (x ∷ xs) = false

module _ {ℓ} {A : Type ℓ} where
  pub length-append : (xs ys : List A) → length (xs ++ ys) ≡ length xs + length ys
  length-append [] ys = omega arith
  length-append (x ∷ xs) ys = omega (arith, length-append xs ys)

  pub count_if-append :
      (p : A → Bool) (xs ys : List A) → count_if p (xs ++ ys) ≡ count_if p xs + count_if p ys
  count_if-append p [] ys = omega arith
  count_if-append p (x ∷ xs) ys = omega (arith, count_if-append p xs ys)

  pub count_if-select :
      (p q : A → Bool) (xs : List A)
      → count_if p (select q xs) + count_if p (select (λ x. not (q x)) xs) ≡ count_if p xs
  count_if-select p q [] = omega arith
  count_if-select p q (x ∷ xs) = ground (arith, count_if-select p q xs)

  pub any-count_if : (p : A → Bool) (xs : List A) → any p xs ≡ false → count_if p xs ≡ 0
  any-count_if p [] h = refl
  any-count_if p (x ∷ xs) h = ground (arith, any-count_if p xs)

  pub count_if-any : (p : A → Bool) (xs : List A) → count_if p xs ≡ 0 → any p xs ≡ false
  count_if-any p [] h = refl
  count_if-any p (x ∷ xs) h = ground (arith, count_if-any p xs)

-- `n in xs`
abbrev pub elem : ℕ → List ℕ → Bool
elem n [] = false
elem n (x ∷ xs) = n == x || elem n xs

-- No number is listed twice.
abbrev pub IsDistinct : List ℕ → Type 0
IsDistinct [] = Unit
IsDistinct (x ∷ xs) = (elem x xs ≡ false) × IsDistinct xs

-- `len(xs) == len(set(xs))`
abbrev pub is_distinct : List ℕ → Bool
is_distinct [] = true
is_distinct (x ∷ xs) = not (elem x xs) && is_distinct xs

pub is_distinct-IsDistinct : (xs : List ℕ) → is_distinct xs ≡ true → IsDistinct xs
is_distinct-IsDistinct [] h = tt
is_distinct-IsDistinct (x ∷ xs) h = ground (arith, is_distinct-IsDistinct xs)

pub elem-append : (n : ℕ) (xs ys : List ℕ) → elem n (xs ++ ys) ≡ (elem n xs || elem n ys)
elem-append n [] ys = refl
elem-append n (x ∷ xs) ys = ground (arith, elem-append n xs ys)

pub IsDistinct-snoc :
    (n : ℕ) (xs : List ℕ) → IsDistinct xs → elem n xs ≡ false → IsDistinct (xs ++ n ∷ [])
IsDistinct-snoc n [] h e = (refl, tt)
IsDistinct-snoc n (x ∷ xs) h e = ground (arith, IsDistinct-snoc n xs h.1, elem-append x xs (n ∷ []))

-- `xs` without every occurrence of `n`.
abbrev pub without : ℕ → List ℕ → List ℕ
without n [] = []
without n (x ∷ xs) = let rest = without n xs in if x == n then rest else x ∷ rest

pub elem-without : (n m : ℕ) (xs : List ℕ) → elem m (without n xs) ≡ (not (m == n) && elem m xs)
elem-without n m [] = ground arith
elem-without n m (x ∷ xs) = ground (arith, elem-without n m xs)

pub without-IsDistinct : (n : ℕ) (xs : List ℕ) → IsDistinct xs → IsDistinct (without n xs)
without-IsDistinct n [] h = tt
without-IsDistinct n (x ∷ xs) h = ground (arith, without-IsDistinct n xs h.1, elem-without n x xs)
