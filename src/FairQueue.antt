-- ===== src/FairQueue.antt =====
-- src/ldaca_wordflow/services/fair_queue.py: the fair-user selector that both schedulers share.
-- A user identifier is only compared, so it is a number. `order_key` enters as the strict order
-- `lt` on items that it induces; `list.sort` is a stable insertion sort by that order. A call that
-- raises on an empty queue returns `none`.
pub mod Order
pub mod Invariant
pub mod Content
pub mod Fairness
mod Tests
use ldaca_wordflow_backend.Base.{
  ℕ, Bool, true, false, not, Option, none, some, List, [], ◌∷◌, ◌++◌, Dict, lookup, insert, erase,
  elem, without, select, is_empty, eq_option, if◌then◌else◌,
}

abbrev pub UserId : Type 0
UserId = ℕ

pub record FairUserQueue {ℓ} (T : Type ℓ) : Type ℓ where
  pub items : Dict (List T)
  pub user_order : List UserId
  pub last_user : Option UserId

-- The order of users that `pop` serves from: rotated once when the last user would come again.
abbrev pub next_order : Option UserId → List UserId → List UserId
next_order last [] = []
next_order last (u ∷ []) = u ∷ []
next_order last (u ∷ v ∷ us) = if eq_option (some u) last then v ∷ (us ++ u ∷ []) else u ∷ v ∷ us

module _ {ℓ} {T : Type ℓ} where
  -- `list.sort(key=order_key)`
  pub insert_sorted : (T → T → Bool) → T → List T → List T
  insert_sorted lt x [] = x ∷ []
  insert_sorted lt x (y ∷ ys) =
      let rest = insert_sorted lt x ys in if lt y x then y ∷ rest else x ∷ y ∷ ys

  unfoldable pub sort : (T → T → Bool) → List T → List T
  unfolding insert_sorted
  sort lt [] = []
  sort lt (x ∷ xs) = insert_sorted lt x (sort lt xs)

  -- `self._items.get(user_id, ())`
  abbrev pub or_empty : Option (List T) → List T
  or_empty none = []
  or_empty (some xs) = xs

  unfoldable pub new : FairUserQueue T
  new = record { items = []; user_order = []; last_user = none }

  unfoldable pub add : (T → T → Bool) → UserId → T → FairUserQueue T → FairUserQueue T
  add lt user_id item q = record {
    items = insert user_id (sort lt (or_empty (lookup user_id q.items) ++ item ∷ [])) q.items;
    user_order = if elem user_id q.user_order then q.user_order else q.user_order ++ user_id ∷ [];
    last_user = q.last_user;
  }

  -- `pop` after `popleft` gave `user_id` and left `order`.
  serve : FairUserQueue T → UserId → List UserId → List T → Option (T × FairUserQueue T)
  serve q user_id order [] = none
  serve q user_id order (selected ∷ rest) = some (
    selected,
    record {
      items = if is_empty rest then erase user_id q.items else insert user_id rest q.items;
      user_order = if is_empty rest then order else order ++ user_id ∷ [];
      last_user = some user_id;
    },
  )

  pop_from : FairUserQueue T → List UserId → Option (T × FairUserQueue T)
  pop_from q [] = none
  pop_from q (user_id ∷ order) = serve q user_id order (or_empty (lookup user_id q.items))

  unfoldable pub pop : FairUserQueue T → Option (T × FairUserQueue T)
  unfolding serve pop_from
  pop q = pop_from q (next_order q.last_user q.user_order)

  -- `remove`, once the user's items are split by the predicate.
  remove_from : FairUserQueue T → UserId → List T → List T → List T × FairUserQueue T
  remove_from q user_id [] retained = ([], q)
  remove_from q user_id (x ∷ removed) [] = (
    x ∷ removed,
    record q { items = erase user_id q.items; user_order = without user_id q.user_order },
  )
  remove_from q user_id (x ∷ removed) (y ∷ retained) =
      (x ∷ removed, record q { items = insert user_id (y ∷ retained) q.items })

  unfoldable pub remove : UserId → (T → Bool) → FairUserQueue T → List T × FairUserQueue T
  unfolding remove_from
  remove user_id predicate q =
      let items = or_empty (lookup user_id q.items) in
      remove_from q user_id (select predicate items) (select (λ x. not (predicate x)) items)

  abbrev pub items_for : UserId → FairUserQueue T → List T
  items_for user_id q = or_empty (lookup user_id q.items)

  abbrev pub flatten : Dict (List T) → List T
  flatten [] = []
  flatten (e ∷ d) = e.1 ++ flatten d

  abbrev pub values : FairUserQueue T → List T
  values q = flatten q.items

  unfoldable pub clear : FairUserQueue T → List T × FairUserQueue T
  clear q = (values q, record q { items = []; user_order = [] })

  -- `bool(queue)`
  abbrev pub is_pending : FairUserQueue T → Bool
  is_pending q = not (is_empty q.user_order)
