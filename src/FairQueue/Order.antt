-- ===== src/FairQueue/Order.antt =====
-- fair_queue.py serves each user's items in the order of `order_key`.
use ldaca_wordflow_backend.Base.{
  ◌≡◌, refl, Bool, true, false, not, some, List, [], ◌∷◌, ◌++◌, arith, lookup, IsUnique,
  lookup-insert, lookup-erase, select, All,
}
use ldaca_wordflow_backend.FairQueue.{
  FairUserQueue, UserId, sort, insert_sorted, or_empty, add, next_order, serve, pop_from, pop,
  remove_from, remove,
}

-- What the sort relies on: `lt` is a strict weak order, as the order by a key is.
pub record IsKeyOrder {ℓ} {T : Type ℓ} (lt : T → T → Bool) : Type ℓ where
  pub asymmetric : (x y : T) → lt x y ≡ true → lt y x ≡ false
  pub not_less_trans : (x y z : T) → lt y x ≡ false → lt z y ≡ false → lt z x ≡ false

-- No item stands before one that is less.
abbrev pub IsSorted {ℓ} : {T : Type ℓ} → (T → T → Bool) → List T → Type 0
IsSorted lt [] = Unit
IsSorted lt (x ∷ xs) = All (λ y. lt y x ≡ false) xs × IsSorted lt xs

abbrev pub IsOrdered {ℓ} : {T : Type ℓ} → (T → T → Bool) → FairUserQueue T → Type 0
IsOrdered lt q = (u : UserId) → IsSorted lt (or_empty (lookup u q.items))

module _ {ℓ} {T : Type ℓ} {lt : T → T → Bool} (o : IsKeyOrder lt) where
  All-lift :
      (x y : T) (xs : List T)
      → lt y x ≡ false
      → All (λ z. lt z y ≡ false) xs
      → All (λ z. lt z x ≡ false) xs
  All-lift x y [] h a = tt
  All-lift x y (z ∷ zs) h a = (o.not_less_trans x y z h a.0, All-lift x y zs h a.1)

  All-insert_sorted :
      (x y : T) (xs : List T)
      → lt y x ≡ false
      → All (λ z. lt z x ≡ false) xs
      → All (λ z. lt z x ≡ false) (insert_sorted lt y xs)
  unfolding insert_sorted
  All-insert_sorted x y [] h a = (h, tt)
  All-insert_sorted x y (z ∷ zs) h a = ground (arith, All-insert_sorted x y zs h a.1)

  insert_sorted-IsSorted :
      (x : T) (xs : List T) → IsSorted lt xs → IsSorted lt (insert_sorted lt x xs)
  unfolding insert_sorted
  insert_sorted-IsSorted x [] h = (tt, tt)
  insert_sorted-IsSorted x (y ∷ ys) h = ground (
    arith,
    insert_sorted-IsSorted x ys h.1,
    All-insert_sorted y x ys,
    All-lift x y ys,
    o.asymmetric y x,
  )

  pub sort-IsSorted : (xs : List T) → IsSorted lt (sort lt xs)
  unfolding sort
  sort-IsSorted [] = tt
  sort-IsSorted (x ∷ xs) = insert_sorted-IsSorted x (sort lt xs) (sort-IsSorted xs)

  pub add-IsOrdered :
      (u : UserId) (x : T) (q : FairUserQueue T) → IsOrdered lt q → IsOrdered lt (add lt u x q)
  unfolding add
  add-IsOrdered u x q h v =
      let xs = sort lt (or_empty (lookup u q.items) ++ x ∷ []) in
      ground (
        arith,
        h v,
        lookup-insert u v xs q.items,
        sort-IsSorted (or_empty (lookup u q.items) ++ x ∷ []),
      )

  -- What a call of `pop` on an ordered queue has done: the item comes first among its user's.
  abbrev pub PopsFirst : FairUserQueue T → T → FairUserQueue T → Type ℓ
  PopsFirst q x q' =
      (u : UserId)
      → q'.last_user ≡ some u
      → (or_empty (lookup u q.items) ≡ x ∷ or_empty (lookup u q'.items))
        × All (λ y. lt y x ≡ false) (or_empty (lookup u q'.items))

  serve-PopsFirst :
      (q : FairUserQueue T) (user : UserId) (order : List UserId) (xs : List T) {x : T}
      {q' : FairUserQueue T}
      → IsUnique q.items
      → IsOrdered lt q
      → or_empty (lookup user q.items) ≡ xs
      → serve q user order xs ≡ some (x, q')
      → PopsFirst q x q' × IsOrdered lt q'
  unfolding serve
  serve-PopsFirst q user order [] k h l e = cc
  serve-PopsFirst q user order (y ∷ []) k h l e = (
    (λ u s. ground (arith, lookup-erase user u q.items k)),
    λ u. ground (arith, h u, lookup-erase user u q.items k),
  )
  serve-PopsFirst q user order (y ∷ z ∷ ys) k h l e = (
    (λ u s. ground (arith, h user, lookup-insert user u (z ∷ ys) q.items)),
    λ u. ground (arith, h u, h user, lookup-insert user u (z ∷ ys) q.items),
  )

  pop_from-PopsFirst :
      (q : FairUserQueue T) (order : List UserId) {x : T} {q' : FairUserQueue T}
      → IsUnique q.items
      → IsOrdered lt q
      → pop_from q order ≡ some (x, q')
      → PopsFirst q x q' × IsOrdered lt q'
  unfolding pop_from
  pop_from-PopsFirst q [] k h e = cc
  pop_from-PopsFirst q (u ∷ order) k h e = serve-PopsFirst q u order _ k h refl e

  -- The item that is popped is its user's first in key order; the queue stays ordered.
  pub pop-PopsFirst :
      (q : FairUserQueue T) {x : T} {q' : FairUserQueue T}
      → IsUnique q.items
      → IsOrdered lt q
      → pop q ≡ some (x, q')
      → PopsFirst q x q' × IsOrdered lt q'
  unfolding pop
  pop-PopsFirst q k h e = pop_from-PopsFirst q (next_order q.last_user q.user_order) k h e

  All-select :
      (p : T → Bool) (x : T) (xs : List T)
      → All (λ z. lt z x ≡ false) xs
      → All (λ z. lt z x ≡ false) (select p xs)
  All-select p x [] h = tt
  All-select p x (y ∷ ys) h = ground (arith, All-select p x ys h.1)

  select-IsSorted : (p : T → Bool) (xs : List T) → IsSorted lt xs → IsSorted lt (select p xs)
  select-IsSorted p [] h = tt
  select-IsSorted p (x ∷ xs) h = ground (arith, select-IsSorted p xs h.1, All-select p x xs h.0)

  remove_from-IsOrdered :
      (q : FairUserQueue T) (user : UserId) (xs ys : List T)
      → IsUnique q.items
      → IsOrdered lt q
      → IsSorted lt ys
      → IsOrdered lt (remove_from q user xs ys).1
  unfolding remove_from
  remove_from-IsOrdered q user [] ys k h s u = h u
  remove_from-IsOrdered q user (x ∷ xs) [] k h s u =
      ground (arith, h u, lookup-erase user u q.items k)
  remove_from-IsOrdered q user (x ∷ xs) (y ∷ ys) k h s u =
      ground (arith, h u, s, lookup-insert user u (y ∷ ys) q.items)

  pub remove-IsOrdered :
      (user : UserId) (p : T → Bool) (q : FairUserQueue T)
      → IsUnique q.items
      → IsOrdered lt q
      → IsOrdered lt (remove user p q).1
  unfolding remove
  remove-IsOrdered user p q k h =
      remove_from-IsOrdered q user _ _ k h
        (select-IsSorted (λ x. not (p x)) (or_empty (lookup user q.items)) (h user))
