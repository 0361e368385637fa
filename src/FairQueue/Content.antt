-- ===== src/FairQueue/Content.antt =====
-- What fair_queue.py holds: every operation adds or takes out exactly the items that it should,
-- by the number of items that pass any test.
use ldaca_wordflow_backend.Base.{
  ◌+◌, ◌≡◌, refl, Bool, not, some, List, [], ◌∷◌, ◌++◌, arith, Dict, IsUnique, lookup-insert,
  lookup-erase, ◌==◌, if◌then◌else◌, lookup, insert, erase, select, count_if, count_if-append,
  count_if-select,
}
use ldaca_wordflow_backend.FairQueue.{
  FairUserQueue, UserId, sort, insert_sorted, or_empty, add, next_order, serve, pop_from, pop,
  remove_from, remove, clear, flatten, values, items_for,
}

module _ {ℓ} {T : Type ℓ} (p : T → Bool) where
  count_if-insert_sorted :
      (lt : T → T → Bool) (x : T) (xs : List T)
      → count_if p (insert_sorted lt x xs) ≡ count_if p (x ∷ xs)
  unfolding insert_sorted
  count_if-insert_sorted lt x [] = refl
  count_if-insert_sorted lt x (y ∷ ys) = ground (arith, count_if-insert_sorted lt x ys)

  pub count_if-sort : (lt : T → T → Bool) (xs : List T) → count_if p (sort lt xs) ≡ count_if p xs
  unfolding sort
  count_if-sort lt [] = refl
  count_if-sort lt (x ∷ xs) =
      omega (arith, count_if-sort lt xs, count_if-insert_sorted lt x (sort lt xs))

  count_if-flatten-insert :
      (u : UserId) (ys : List T) (d : Dict (List T))
      → count_if p (flatten (insert u ys d)) + count_if p (or_empty (lookup u d))
        ≡ count_if p (flatten d) + count_if p ys
  count_if-flatten-insert u ys [] = omega (arith, count_if-append p ys [])
  count_if-flatten-insert u ys (e ∷ d) = ground (
    arith,
    count_if-flatten-insert u ys d,
    count_if-append p ys (flatten d),
    count_if-append p e.1 (flatten d),
    count_if-append p e.1 (flatten (insert u ys d)),
  )

  count_if-flatten-erase :
      (u : UserId) (d : Dict (List T))
      → count_if p (flatten (erase u d)) + count_if p (or_empty (lookup u d))
        ≡ count_if p (flatten d)
  count_if-flatten-erase u [] = refl
  count_if-flatten-erase u (e ∷ d) = ground (
    arith,
    count_if-flatten-erase u d,
    count_if-append p e.1 (flatten d),
    count_if-append p e.1 (flatten (erase u d)),
  )

  pub count_if-add :
      (lt : T → T → Bool) (u : UserId) (x : T) (q : FairUserQueue T)
      → count_if p (values (add lt u x q)) ≡ count_if p (x ∷ values q)
  unfolding add
  count_if-add lt u x q =
      let old = or_empty (lookup u q.items) in
      omega (
        arith,
        count_if-sort lt (old ++ x ∷ []),
        count_if-append p old (x ∷ []),
        count_if-flatten-insert u (sort lt (old ++ x ∷ [])) q.items,
      )

  count_if-serve :
      (q : FairUserQueue T) (u : UserId) (order : List UserId) (xs : List T) {x : T}
      {q' : FairUserQueue T}
      → or_empty (lookup u q.items) ≡ xs
      → serve q u order xs ≡ some (x, q')
      → count_if p (values q) ≡ count_if p (x ∷ values q')
  unfolding serve
  count_if-serve q u order [] o e = cc
  count_if-serve q u order (y ∷ []) {x} {q'} o e = ground (arith, count_if-flatten-erase u q.items)
  count_if-serve q u order (y ∷ z ∷ ys) {x} {q'} o e =
      ground (arith, count_if-flatten-insert u (z ∷ ys) q.items)

  count_if-pop_from :
      (q : FairUserQueue T) (order : List UserId) {x : T} {q' : FairUserQueue T}
      → pop_from q order ≡ some (x, q')
      → count_if p (values q) ≡ count_if p (x ∷ values q')
  unfolding pop_from
  count_if-pop_from q [] e = cc
  count_if-pop_from q (u ∷ order) e = count_if-serve q u order _ refl e

  pub count_if-pop :
      (q : FairUserQueue T) {x : T} {q' : FairUserQueue T}
      → pop q ≡ some (x, q')
      → count_if p (values q) ≡ count_if p (x ∷ values q')
  unfolding pop
  count_if-pop q e = count_if-pop_from q (next_order q.last_user q.user_order) e

  count_if-remove_from :
      (q : FairUserQueue T) (u : UserId) (xs ys : List T)
      → count_if p (or_empty (lookup u q.items)) ≡ count_if p xs + count_if p ys
      → let (removed, q') = remove_from q u xs ys in
        count_if p (values q) ≡ count_if p removed + count_if p (values q')
  unfolding remove_from
  count_if-remove_from q u [] ys h = omega arith
  count_if-remove_from q u (x ∷ xs) [] h = omega (arith, count_if-flatten-erase u q.items)
  count_if-remove_from q u (x ∷ xs) (y ∷ ys) h =
      omega (arith, count_if-flatten-insert u (y ∷ ys) q.items)

  pub count_if-remove :
      (u : UserId) (test : T → Bool) (q : FairUserQueue T)
      → let (removed, q') = remove u test q in
        count_if p (values q) ≡ count_if p removed + count_if p (values q')
  unfolding remove
  count_if-remove u test q =
      count_if-remove_from q u _ _
        (omega (arith, count_if-select p test (or_empty (lookup u q.items))))

  pub count_if-clear :
      (q : FairUserQueue T)
      → let (removed, q') = clear q in (removed ≡ values q) × (count_if p (values q') ≡ 0)
  unfolding clear
  count_if-clear q = (refl, refl)

-- `remove` splits one user's items by the test, and leaves the others' alone.
module _ {ℓ} {T : Type ℓ} where
  select-none : (p : T → Bool) (xs : List T) → select p xs ≡ [] → select (λ x. not (p x)) xs ≡ xs
  select-none p [] h = refl
  select-none p (x ∷ xs) h = ground (arith, select-none p xs)

  items_for-remove_from :
      (q : FairUserQueue T) (u j : UserId) (xs ys : List T)
      → IsUnique q.items
      → (xs ≡ [] → ys ≡ items_for u q)
      → items_for j (remove_from q u xs ys).1 ≡ (if j == u then ys else items_for j q)
  unfolding remove_from
  items_for-remove_from q u j [] ys k h = ground (arith, h refl)
  items_for-remove_from q u j (x ∷ xs) [] k h = ground (arith, lookup-erase u j q.items k)
  items_for-remove_from q u j (x ∷ xs) (y ∷ ys) k h =
      ground (arith, lookup-insert u j (y ∷ ys) q.items)

  remove_from-removed :
      (q : FairUserQueue T) (u : UserId) (xs ys : List T) → (remove_from q u xs ys).0 ≡ xs
  unfolding remove_from
  remove_from-removed q u [] ys = refl
  remove_from-removed q u (x ∷ xs) [] = refl
  remove_from-removed q u (x ∷ xs) (y ∷ ys) = refl

  pub remove-removed :
      (u : UserId) (test : T → Bool) (q : FairUserQueue T)
      → (remove u test q).0 ≡ select test (items_for u q)
  unfolding remove
  remove-removed u test q = remove_from-removed q u _ _

  pub items_for-remove :
      (u j : UserId) (test : T → Bool) (q : FairUserQueue T)
      → IsUnique q.items
      → ((remove u test q).0 ≡ select test (items_for u q))
        × (items_for j (remove u test q).1
            ≡ (if j == u then select (λ x. not (test x)) (items_for u q) else items_for j q))
  unfolding remove
  items_for-remove u j test q k = (
    remove_from-removed q u _ _,
    items_for-remove_from q u j _ _ k (select-none test (items_for u q)),
  )
