-- ===== src/NodePlans/History.antt =====
-- Undo and redo of node.py lose no plan that they have moved.
use ldaca_wordflow_backend.Base.{
  ℕ, ◌+◌, ◌≤◌, ◌<◌, ◌≡◌, refl, true, not, List, [], ◌∷◌, arith, length, is_empty, ◌==◌, split_if,
}
use ldaca_wordflow_backend.NodePlans.{
  Node, plan_history_limit, create, drop_oldest, append_bounded, set_data, can_undo, can_redo,
  undo_data, redo_data, undo_from, redo_from,
}

-- The two stacks together keep to the limit.
abbrev pub IsBounded : Node → Type 0
IsBounded n = length n.undo_stack + length n.redo_stack ≤ plan_history_limit

length-drop_oldest : (x : ℕ) (xs : List ℕ) → length (drop_oldest (x ∷ xs)) ≡ length xs
length-drop_oldest x [] = refl
length-drop_oldest x (y ∷ xs) = ground (arith, length-drop_oldest y xs)

length-append_bounded :
    (stack : List ℕ) (plan : ℕ)
    → length stack ≤ plan_history_limit
    → length (append_bounded stack plan) ≤ plan_history_limit
unfolding append_bounded
length-append_bounded stack plan le = ground (arith, length-drop_oldest plan stack)

append_bounded-room :
    (stack : List ℕ) (plan : ℕ)
    → length stack < plan_history_limit
    → append_bounded stack plan ≡ plan ∷ stack
unfolding append_bounded
append_bounded-room stack plan lt = ground arith

set_data-IsBounded : (value : ℕ) (n : Node) → IsBounded n → IsBounded (set_data value n)
unfolding set_data
set_data-IsBounded value n v =
    split_if IsBounded (value == n.plan) (λ e. v)
      (λ e. omega (arith, length-append_bounded n.undo_stack n.plan (omega arith)))

undo_from-IsBounded :
    (p : ℕ) (us rs : List ℕ)
    → length us + length rs ≤ plan_history_limit
    → IsBounded (undo_from (record { plan = p; undo_stack = us; redo_stack = rs }) us).1
undo_from-IsBounded p [] rs v = v
undo_from-IsBounded p (u ∷ us) rs v = ground (arith, append_bounded-room rs p (omega arith))

redo_from-IsBounded :
    (p : ℕ) (us rs : List ℕ)
    → length us + length rs ≤ plan_history_limit
    → IsBounded (redo_from (record { plan = p; undo_stack = us; redo_stack = rs }) rs).1
redo_from-IsBounded p us [] v = v
redo_from-IsBounded p us (r ∷ rs) v = ground (arith, append_bounded-room us p (omega arith))

pub data Edit : Type 0 where
  assigning : ℕ → Edit
  undoing : Edit
  redoing : Edit

abbrev pub step : Edit → Node → Node
step (assigning value) n = set_data value n
step undoing n = (undo_data n).1
step redoing n = (redo_data n).1

abbrev pub run : List Edit → Node → Node
run [] n = n
run (e ∷ es) n = run es (step e n)

step-IsBounded : (e : Edit) (n : Node) → IsBounded n → IsBounded (step e n)
unfolding undo_data redo_data
step-IsBounded (assigning value) n v = set_data-IsBounded value n v
step-IsBounded undoing n v = undo_from-IsBounded n.plan n.undo_stack n.redo_stack v
step-IsBounded redoing n v = redo_from-IsBounded n.plan n.undo_stack n.redo_stack v

run_from-IsBounded : (es : List Edit) (n : Node) → IsBounded n → IsBounded (run es n)
run_from-IsBounded [] n v = v
run_from-IsBounded (e ∷ es) n v = run_from-IsBounded es (step e n) (step-IsBounded e n v)

undo_from-redo :
    (p : ℕ) (us rs : List ℕ)
    → length us + length rs ≤ plan_history_limit
    → not (is_empty us) ≡ true
    → (redo_data (undo_from (record { plan = p; undo_stack = us; redo_stack = rs }) us).1).1
      ≡ record { plan = p; undo_stack = us; redo_stack = rs }
unfolding redo_data
undo_from-redo p [] rs v e = ground arith
undo_from-redo p (u ∷ us) rs v e =
    rw (append_bounded-room rs p (omega arith), append_bounded-room us u (omega arith)) refl

redo_from-undo :
    (p : ℕ) (us rs : List ℕ)
    → length us + length rs ≤ plan_history_limit
    → not (is_empty rs) ≡ true
    → (undo_data (redo_from (record { plan = p; undo_stack = us; redo_stack = rs }) rs).1).1
      ≡ record { plan = p; undo_stack = us; redo_stack = rs }
unfolding undo_data
redo_from-undo p us [] v e = ground arith
redo_from-undo p us (r ∷ rs) v e =
    rw (append_bounded-room us p (omega arith), append_bounded-room rs r (omega arith)) refl

-- What undo and redo do to a Data Block with room in its stacks.
abbrev pub AreInverse : Node → Type 0
AreInverse n =
    IsBounded n
    × (can_undo n ≡ true → (redo_data (undo_data n).1).1 ≡ n)
    × (can_redo n ≡ true → (undo_data (redo_data n).1).1 ≡ n)

-- After any assignments, undos and redos on a new Data Block its two stacks hold at most fifty plans
-- together, so redo takes back an undo and undo takes back a redo, in the plan and in both stacks.
pub run-AreInverse : (plan : ℕ) (es : List Edit) → AreInverse (run es (create plan))
unfolding create undo_data redo_data can_undo can_redo
run-AreInverse plan es =
    let n = run es (create plan) in
    let v : IsBounded n = run_from-IsBounded es (create plan) (omega arith) in
    (
      v,
      undo_from-redo n.plan n.undo_stack n.redo_stack v,
      redo_from-undo n.plan n.undo_stack n.redo_stack v,
    )
