-- ===== src/FairQueue/Invariant.antt =====
-- The well-formedness of a fair queue, kept by every operation of fair_queue.py.
use ldaca_wordflow_backend.Base.{
  ◌≡◌, refl, Bool, true, false, not, Option, none, some, List, [], ◌∷◌, ◌++◌, arith, ap, ◌∙◌, ◌||◌,
  is_empty, lookup, IsUnique, lookup-insert, lookup-erase, insert-IsUnique, erase-IsUnique, elem,
  IsDistinct, IsDistinct-snoc, elem-append, elem-without, without, without-IsDistinct, select,
  is_some,
}
use ldaca_wordflow_backend.FairQueue.{
  FairUserQueue, UserId, sort, insert_sorted, or_empty, new, add, next_order, serve, pop_from, pop,
  remove_from, remove, clear, is_pending,
}

abbrev pub has_items {ℓ} : {T : Type ℓ} → Option (List T) → Bool
has_items none = false
has_items (some []) = false
has_items (some (x ∷ xs)) = true

-- Users are queued once, exactly those that have items, and no user has an empty list.
pub record IsValid {ℓ} {T : Type ℓ} (q : FairUserQueue T) : Type ℓ where
  pub keys_unique : IsUnique q.items
  pub order_distinct : IsDistinct q.user_order
  pub backed : (u : UserId) → elem u q.user_order ≡ is_some (lookup u q.items)
  pub filled : (u : UserId) → has_items (lookup u q.items) ≡ is_some (lookup u q.items)

module _ {ℓ} {T : Type ℓ} where
  insert_sorted-has_items :
      (lt : T → T → Bool) (x : T) (xs : List T) → has_items (some (insert_sorted lt x xs)) ≡ true
  unfolding insert_sorted
  insert_sorted-has_items lt x [] = refl
  insert_sorted-has_items lt x (y ∷ ys) = ground arith

  sort-has_items :
      (lt : T → T → Bool) (x : T) (xs : List T) → has_items (some (sort lt (xs ++ x ∷ []))) ≡ true
  unfolding sort
  sort-has_items lt x [] = insert_sorted-has_items lt x []
  sort-has_items lt x (y ∷ ys) = insert_sorted-has_items lt y (sort lt (ys ++ x ∷ []))

  pub new-IsValid : IsValid (new {T = T})
  unfolding new
  new-IsValid = record {
    keys_unique = tt;
    order_distinct = tt;
    backed = λ u. refl;
    filled = λ u. refl;
  }

  pub add-IsValid :
      (lt : T → T → Bool) (user : UserId) (x : T) (q : FairUserQueue T)
      → IsValid q
      → IsValid (add lt user x q)
  unfolding add
  add-IsValid lt user x q v = record {
    keys_unique = insert-IsUnique user _ q.items v.keys_unique;
    order_distinct =
        ground (arith, IsDistinct-snoc user q.user_order v.order_distinct, v.order_distinct);
    backed = λ u. ground (
      arith,
      v.backed u,
      v.backed user,
      elem-append u q.user_order (user ∷ []),
      lookup-insert user u (sort lt (or_empty (lookup user q.items) ++ x ∷ [])) q.items,
    );
    filled = λ u. ground (
      arith,
      v.filled u,
      sort-has_items lt x (or_empty (lookup user q.items)),
      lookup-insert user u (sort lt (or_empty (lookup user q.items) ++ x ∷ [])) q.items,
    );
  }

pub elem-next_order :
    (u : UserId) (last : Option UserId) (us : List UserId) → elem u (next_order last us) ≡ elem u us
elem-next_order u last [] = refl
elem-next_order u last (x ∷ []) = refl
elem-next_order u last (x ∷ y ∷ us) = ground (arith, elem-append u us (x ∷ []))

pub next_order-IsDistinct :
    (last : Option UserId) (us : List UserId) → IsDistinct us → IsDistinct (next_order last us)
next_order-IsDistinct last [] h = tt
next_order-IsDistinct last (x ∷ []) h = h
next_order-IsDistinct last (x ∷ y ∷ us) h =
    ground (arith, elem-append y us (x ∷ []), IsDistinct-snoc x us h.1.1)

is_empty-next_order :
    (last : Option UserId) (us : List UserId) → is_empty (next_order last us) ≡ is_empty us
is_empty-next_order last [] = refl
is_empty-next_order last (x ∷ []) = refl
is_empty-next_order last (x ∷ y ∷ us) = ground arith

is_empty-without :
    (u : UserId) (us : List UserId)
    → not (is_empty us) ≡ false
    → not (is_empty (without u us)) ≡ false
is_empty-without u [] h = refl
is_empty-without u (x ∷ us) h = cc

module _ {ℓ} {T : Type ℓ} where
  -- The invariant over an order that need not be the queue's own.
  record IsBacked (q : FairUserQueue T) (order : List UserId) : Type ℓ where
    keys_unique : IsUnique q.items
    order_distinct : IsDistinct order
    backed : (u : UserId) → elem u order ≡ is_some (lookup u q.items)
    filled : (u : UserId) → has_items (lookup u q.items) ≡ is_some (lookup u q.items)

  serve-IsValid :
      (q : FairUserQueue T) (user : UserId) (order : List UserId) (xs : List T) {x : T}
      {q' : FairUserQueue T}
      → IsBacked q (user ∷ order)
      → serve q user order xs ≡ some (x, q')
      → IsValid q'
  unfolding serve
  serve-IsValid q user order [] v e = cc
  serve-IsValid q user order (y ∷ []) {x} {q'} v e = record {
    keys_unique = ground (arith, erase-IsUnique user q.items v.keys_unique);
    order_distinct = ground (arith, v.order_distinct);
    backed = λ u. ground (
      arith,
      v.order_distinct,
      v.backed u,
      v.backed user,
      lookup-erase user u q.items v.keys_unique,
    );
    filled = λ u. ground (arith, v.filled u, lookup-erase user u q.items v.keys_unique);
  }
  serve-IsValid q user order (y ∷ z ∷ ys) {x} {q'} v e = record {
    keys_unique = ground (arith, insert-IsUnique user (z ∷ ys) q.items v.keys_unique);
    order_distinct =
        ground (arith, IsDistinct-snoc user order v.order_distinct.1, v.order_distinct);
    backed = λ u.
        ground (
          arith,
          v.backed u,
          elem-append u order (user ∷ []),
          lookup-insert user u (z ∷ ys) q.items,
        );
    filled = λ u. ground (arith, v.filled u, lookup-insert user u (z ∷ ys) q.items);
  }

  pop_from-IsValid :
      (q : FairUserQueue T) (order : List UserId) {x : T} {q' : FairUserQueue T}
      → IsBacked q order
      → pop_from q order ≡ some (x, q')
      → IsValid q'
  unfolding pop_from
  pop_from-IsValid q [] v e = cc
  pop_from-IsValid q (user ∷ order) v e =
      serve-IsValid q user order (or_empty (lookup user q.items)) v e

  next_order-IsBacked :
      (q : FairUserQueue T) → IsValid q → IsBacked q (next_order q.last_user q.user_order)
  next_order-IsBacked q v = record {
    keys_unique = v.keys_unique;
    order_distinct = next_order-IsDistinct q.last_user q.user_order v.order_distinct;
    backed = λ u. elem-next_order u q.last_user q.user_order ∙ v.backed u;
    filled = v.filled;
  }

  pub pop-IsValid :
      (q : FairUserQueue T) {x : T} {q' : FairUserQueue T}
      → IsValid q
      → pop q ≡ some (x, q')
      → IsValid q'
  unfolding pop
  pop-IsValid q v e = pop_from-IsValid q _ (next_order-IsBacked q v) e

  remove_from-IsValid :
      (q : FairUserQueue T) (user : UserId) (xs ys : List T)
      → IsValid q
      → is_some (lookup user q.items) ≡ not (is_empty xs) || is_some (lookup user q.items)
      → IsValid (remove_from q user xs ys).1
  unfolding remove_from
  remove_from-IsValid q user [] ys v h = v
  remove_from-IsValid q user (x ∷ xs) [] v h = record {
    keys_unique = erase-IsUnique user q.items v.keys_unique;
    order_distinct = without-IsDistinct user q.user_order v.order_distinct;
    backed = λ u. ground (
      arith,
      v.backed u,
      elem-without user u q.user_order,
      lookup-erase user u q.items v.keys_unique,
    );
    filled = λ u. ground (arith, v.filled u, lookup-erase user u q.items v.keys_unique);
  }
  remove_from-IsValid q user (x ∷ xs) (y ∷ ys) v h = record {
    keys_unique = insert-IsUnique user (y ∷ ys) q.items v.keys_unique;
    order_distinct = v.order_distinct;
    backed = λ u. ground (arith, v.backed u, v.backed user, lookup-insert user u (y ∷ ys) q.items);
    filled = λ u. ground (arith, v.filled u, lookup-insert user u (y ∷ ys) q.items);
  }

  removed-is_some :
      (o : Option (List T)) (p : T → Bool)
      → is_some o ≡ not (is_empty (select p (or_empty o))) || is_some o
  removed-is_some none p = refl
  removed-is_some (some xs) p = ground arith

  pub remove-IsValid :
      (user : UserId) (p : T → Bool) (q : FairUserQueue T) → IsValid q → IsValid (remove user p q).1
  unfolding remove
  remove-IsValid user p q v =
      remove_from-IsValid q user _ _ v (removed-is_some (lookup user q.items) p)

  pub clear-IsValid : (q : FairUserQueue T) → IsValid (clear q).1
  unfolding clear
  clear-IsValid q = record {
    keys_unique = tt;
    order_distinct = tt;
    backed = λ u. refl;
    filled = λ u. refl;
  }

  -- In a well-formed queue `pop` raises exactly when the queue is falsy.
  serve-is_some :
      (q : FairUserQueue T) (user : UserId) (order : List UserId)
      → IsBacked q (user ∷ order)
      → is_some (serve q user order (or_empty (lookup user q.items))) ≡ true
  unfolding serve
  serve-is_some q user order v = ground (arith, v.backed user, v.filled user)

  pop_from-is_some :
      (q : FairUserQueue T) (order : List UserId)
      → IsBacked q order
      → is_some (pop_from q order) ≡ not (is_empty order)
  unfolding pop_from
  pop_from-is_some q [] v = refl
  pop_from-is_some q (user ∷ order) v = serve-is_some q user order v

  pub pop-is_pending : (q : FairUserQueue T) → IsValid q → is_some (pop q) ≡ is_pending q
  unfolding pop
  pop-is_pending q v =
      pop_from-is_some q _ (next_order-IsBacked q v)
      ∙ ap not (is_empty-next_order q.last_user q.user_order)

  remove_from-is_pending :
      (q : FairUserQueue T) (user : UserId) (xs ys : List T)
      → is_pending q ≡ false
      → is_pending (remove_from q user xs ys).1 ≡ false
  unfolding remove_from
  remove_from-is_pending q user [] ys h = h
  remove_from-is_pending q user (x ∷ xs) [] h = is_empty-without user q.user_order h
  remove_from-is_pending q user (x ∷ xs) (y ∷ ys) h = h

  -- Removal makes no empty queue pending.
  pub remove-is_pending :
      (user : UserId) (p : T → Bool) (q : FairUserQueue T)
      → is_pending q ≡ false
      → is_pending (remove user p q).1 ≡ false
  unfolding remove
  remove-is_pending user p q h = remove_from-is_pending q user _ _ h
