-- ===== src/FairQueue/Tests.antt =====
-- Runs of fair_queue.py, and its theorems at concrete inputs.
use ldaca_wordflow_backend.Base.{ℕ, ◌≡◌, ◌≢◌, refl, true, Option, some, none, [], ◌∷◌, arith, ltb}
use ldaca_wordflow_backend.FairQueue.{FairUserQueue, new, add, pop, sort}
use ldaca_wordflow_backend.FairQueue.Invariant.{IsValid, new-IsValid, add-IsValid, pop-IsValid}
use ldaca_wordflow_backend.FairQueue.Order.{
  IsKeyOrder, IsOrdered, PopsFirst, add-IsOrdered, pop-PopsFirst,
}
use ldaca_wordflow_backend.FairQueue.Fairness.{
  add_item, pop_item, served, is_served, served-queued, pop-alternates,
}

-- User 1 has three items, user 2 has one.
abbrev queue : FairUserQueue ℕ
queue = add ltb 2 7 (add ltb 1 3 (add ltb 1 9 (add ltb 1 5 new)))

queue-IsValid : IsValid queue
queue-IsValid =
    add-IsValid ltb 2 7 _
      (add-IsValid ltb 1 3 _ (add-IsValid ltb 1 9 _ (add-IsValid ltb 1 5 new new-IsValid)))

ltb-IsKeyOrder : IsKeyOrder ltb
ltb-IsKeyOrder = record {
  asymmetric = λ x y h. ground arith;
  not_less_trans = λ x y z h k. ground arith;
}

new-IsOrdered : IsOrdered ltb (new {T = ℕ})
unfolding new
new-IsOrdered u = tt

queue-IsOrdered : IsOrdered ltb queue
queue-IsOrdered = add-IsOrdered ltb-IsKeyOrder 2 7 _ (
    add-IsOrdered ltb-IsKeyOrder 1 3 _
      (add-IsOrdered ltb-IsKeyOrder 1 9 _ (add-IsOrdered ltb-IsKeyOrder 1 5 _ new-IsOrdered)))

abbrev item_of : Option (ℕ × FairUserQueue ℕ) → ℕ
item_of none = 0
item_of (some (x, q)) = x

abbrev rest_of : Option (ℕ × FairUserQueue ℕ) → FairUserQueue ℕ
rest_of none = queue
rest_of (some (x, q)) = q

-- User 1 is served, then user 2, then user 1 for the rest of its items.
turns :
    served ltb (pop_item ∷ pop_item ∷ pop_item ∷ pop_item ∷ []) queue
    ≡ some 1 ∷ some 2 ∷ some 1 ∷ some 1 ∷ []
unfolding served pop add new sort
turns = refl

pop-PopsFirst_example :
    PopsFirst ltb-IsKeyOrder queue 3 (rest_of (pop queue)) × IsOrdered ltb (rest_of (pop queue))
unfolding pop add new sort
pop-PopsFirst_example =
    pop-PopsFirst ltb-IsKeyOrder queue {x = 3} {q' = rest_of (pop queue)} queue-IsValid.keys_unique
      queue-IsOrdered refl

pop-alternates_example : (rest_of (pop (rest_of (pop queue)))).last_user ≢ some 1
unfolding pop add new sort
pop-alternates_example =
    pop-alternates 1 (rest_of (pop queue)) {x = 7} {q' = rest_of (pop (rest_of (pop queue)))}
      (pop-IsValid queue {x = 3} queue-IsValid refl) (omega arith) refl refl

-- User 2 waits behind user 1, and an item is added for user 1 meanwhile.
served-queued_example :
    is_served ltb 2 (served ltb (pop_item ∷ add_item 1 1 ∷ pop_item ∷ []) queue) ≡ true
unfolding add new sort
served-queued_example =
    served-queued ltb 2 (pop_item ∷ add_item 1 1 ∷ pop_item ∷ []) queue queue-IsValid refl refl
      (omega arith)
