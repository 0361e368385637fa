-- ===== src/FairQueue/Fairness.antt =====
-- fair_queue.py rotates users: nobody who waits is passed over for long, whatever is added.
use ldaca_wordflow_backend.Base.{
  ℕ, suc, ◌≡◌, ◌<◌, ◌≤◌, ◌⊎◌, inl, inr, Bool, true, false, Option, none, some, List, [], ◌∷◌, ◌++◌,
  arith, ◌≢◌, any, length, ◌∙◌, ==_refl, elem, eq_option, ◌==◌, if◌then◌else◌, elem-append,
  Option-cases, IsDistinct,
}
use ldaca_wordflow_backend.FairQueue.{FairUserQueue, UserId, add, next_order, serve, pop_from, pop}
use ldaca_wordflow_backend.FairQueue.Invariant.{
  IsValid, elem-next_order, pop-is_pending, add-IsValid, pop-IsValid,
}

-- How many users stand before `u`.
abbrev pub ahead : UserId → List UserId → ℕ
ahead u [] = 0
ahead u (x ∷ xs) = let rest = ahead u xs in if u == x then 0 else suc rest

ahead-append :
    (u : UserId) (xs ys : List UserId) → elem u xs ≡ true → ahead u (xs ++ ys) ≡ ahead u xs
ahead-append u [] ys h = cc
ahead-append u (x ∷ xs) ys h = ground (arith, ahead-append u xs ys)

-- Rotation never sends back a user that was not served last.
ahead-next_order :
    (u : UserId) (last : Option UserId) (us : List UserId)
    → eq_option (some u) last ≡ false
    → elem u us ≡ true
    → ahead u (next_order last us) ≤ ahead u us
ahead-next_order u last [] n h = omega arith
ahead-next_order u last (x ∷ []) n h = omega arith
ahead-next_order u last (x ∷ y ∷ us) n h = ground (arith, ahead-append u us (x ∷ []))

abbrev first : List UserId → Option UserId
first [] = none
first (x ∷ xs) = some x

first-next_order :
    (u : UserId) (us : List UserId)
    → IsDistinct us
    → 2 ≤ length us
    → first (next_order (some u) us) ≢ some u
first-next_order u [] d two = absurd (omega arith)
first-next_order u (x ∷ []) d two = absurd (omega arith)
first-next_order u (x ∷ y ∷ us) d two = ground arith

module _ {ℓ} {T : Type ℓ} where
  -- One `pop` serves `u`, or brings `u` closer to the front and serves somebody else.
  abbrev Advances : UserId → ℕ → FairUserQueue T → Type 0
  Advances u n q' =
      (q'.last_user ≡ some u)
      ⊎ ((elem u q'.user_order ≡ true)
          × (ahead u q'.user_order < n)
          × (eq_option (some u) q'.last_user ≡ false))

  serve-Advances :
      (u : UserId) (q : FairUserQueue T) (user : UserId) (order : List UserId) (xs : List T) {x : T}
      {q' : FairUserQueue T}
      → elem u (user ∷ order) ≡ true
      → serve q user order xs ≡ some (x, q')
      → Advances u (ahead u (user ∷ order)) q'
  unfolding serve
  serve-Advances u q user order [] h e = cc
  serve-Advances u q user order (y ∷ []) h e = ground arith
  serve-Advances u q user order (y ∷ z ∷ ys) h e =
      ground (arith, elem-append u order (user ∷ []), ahead-append u order (user ∷ []))

  pop_from-Advances :
      (u : UserId) (q : FairUserQueue T) (order : List UserId) {x : T} {q' : FairUserQueue T}
      → elem u order ≡ true
      → pop_from q order ≡ some (x, q')
      → Advances u (ahead u order) q'
  unfolding pop_from
  pop_from-Advances u q [] h e = cc
  pop_from-Advances u q (user ∷ order) h e = serve-Advances u q user order _ h e

  pop-Advances :
      (u : UserId) (q : FairUserQueue T) {x : T} {q' : FairUserQueue T}
      → elem u q.user_order ≡ true
      → eq_option (some u) q.last_user ≡ false
      → pop q ≡ some (x, q')
      → Advances u (ahead u q.user_order) q'
  unfolding pop
  pop-Advances u q h n e = ground (
    arith,
    pop_from-Advances u q (next_order q.last_user q.user_order)
        (elem-next_order u q.last_user q.user_order ∙ h) e,
    ahead-next_order u q.last_user q.user_order,
  )

  -- `add` takes nobody out of the order and puts nobody before `u`.
  add-ahead :
      (lt : T → T → Bool) (v : UserId) (x : T) (u : UserId) (q : FairUserQueue T)
      → elem u q.user_order ≡ true
      → (elem u (add lt v x q).user_order ≡ true)
        × (ahead u (add lt v x q).user_order ≡ ahead u q.user_order)
        × ((add lt v x q).last_user ≡ q.last_user)
  unfolding add
  add-ahead lt v x u q h =
      ground (arith, elem-append u q.user_order (v ∷ []), ahead-append u q.user_order (v ∷ []))

  serve-last_user :
      (q : FairUserQueue T) (user : UserId) (order : List UserId) (xs : List T) {x : T}
      {q' : FairUserQueue T}
      → serve q user order xs ≡ some (x, q')
      → q'.last_user ≡ some user
  unfolding serve
  serve-last_user q user order [] e = cc
  serve-last_user q user order (y ∷ ys) e = ground arith

  pop_from-last_user :
      (q : FairUserQueue T) (order : List UserId) {x : T} {q' : FairUserQueue T}
      → pop_from q order ≡ some (x, q')
      → q'.last_user ≡ first order
  unfolding pop_from
  pop_from-last_user q [] e = cc
  pop_from-last_user q (user ∷ order) e = serve-last_user q user order _ e

  -- While two users or more wait, `pop` does not serve the user that it served last.
  pub pop-alternates :
      (u : UserId) (q : FairUserQueue T) {x : T} {q' : FairUserQueue T}
      → IsValid q
      → 2 ≤ length q.user_order
      → q.last_user ≡ some u
      → pop q ≡ some (x, q')
      → q'.last_user ≢ some u
  unfolding pop
  pop-alternates u q v two l e =
      rw (pop_from-last_user q (next_order q.last_user q.user_order) e, l)
        (first-next_order u q.user_order v.order_distinct two)

  pop-queued :
      (u : UserId) (q : FairUserQueue T) → IsValid q → elem u q.user_order ≡ true → pop q ≢ none
  pop-queued u q v h e = ground (arith, pop-is_pending q v)

-- A history of the queue: what is added, and when the dispatcher pops.
pub data Op {ℓ} (T : Type ℓ) : Type ℓ where
  add_item : UserId → T → Op T
  pop_item : Op T

module _ {ℓ} {T : Type ℓ} (lt : T → T → Bool) where
  -- The users served in a history, in order.
  unfoldable pub served : List (Op T) → FairUserQueue T → List (Option UserId)
  served [] q = []
  served (add_item u x ∷ ops) q = served ops (add lt u x q)
  served (pop_item ∷ ops) q = elim (pop q) [
    | none ↦ served ops q
    | some (x, q') ↦ q'.last_user ∷ served ops q'
  ]

  abbrev pub pops : List (Op T) → ℕ
  pops [] = 0
  pops (add_item u x ∷ ops) = pops ops
  pops (pop_item ∷ ops) = suc (pops ops)

  abbrev pub is_served : UserId → List (Option UserId) → Bool
  is_served u us = any (eq_option (some u)) us

  -- A queued user that was not served last is served within as many pops as users stand before
  -- it, and one, however many items are added meanwhile for itself or for others.
  pub served-queued :
      (u : UserId) (ops : List (Op T)) (q : FairUserQueue T)
      → IsValid q
      → elem u q.user_order ≡ true
      → eq_option (some u) q.last_user ≡ false
      → ahead u q.user_order < pops ops
      → is_served u (served ops q) ≡ true
  unfolding served
  served-queued u [] q v h n k = absurd (omega arith)
  served-queued u (add_item w x ∷ ops) q v h n k =
      let (h', k', l') = add-ahead lt w x u q h in
      served-queued u ops (add lt w x q) (add-IsValid lt w x q v) h' (rw l' n) (rw k' k)
  served-queued u (pop_item ∷ ops) q v h n k = elim (Option-cases (pop q)) [
    | inl e ↦ absurd (pop-queued u q v h e)
    | inr ((x, q'), e) ↦
        rw (e, served)
          (elim (pop-Advances u q h n e) [
            | inl now ↦ rw now (ground (arith, ==_refl u))
            | inr (h', closer, n') ↦
                rw n' (served-queued u ops q' (pop-IsValid q v e) h' n' (omega arith))
          ])
  ]
