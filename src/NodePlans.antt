-- ===== src/NodePlans.antt =====
-- src/ldaca_wordflow/domain/workspace/node.py: the plan of a Data Block with its undo and redo stacks.
-- A lazy plan is an object of the table engine; it is only compared by identity and kept, so a plan is
-- the number of that object. A stack is written with its top first; the Python list has it last.
pub mod History
mod Tests
use ldaca_wordflow_backend.Base.{
  ℕ, zero, suc, ◌+◌, Bool, true, false, not, List, [], ◌∷◌, length, is_empty, ◌==◌, ltb,
  if◌then◌else◌,
}

pub record Node : Type 0 where
  pub plan : ℕ
  pub undo_stack : List ℕ
  pub redo_stack : List ℕ

abbrev pub plan_history_limit : ℕ
plan_history_limit = 50

unfoldable pub create : ℕ → Node
create plan = record { plan = plan; undo_stack = []; redo_stack = [] }

-- `del stack[0]`: the oldest plan, at the bottom.
abbrev pub drop_oldest : List ℕ → List ℕ
drop_oldest [] = []
drop_oldest (x ∷ []) = []
drop_oldest (x ∷ y ∷ xs) = x ∷ drop_oldest (y ∷ xs)

-- `_append_bounded`
unfoldable pub append_bounded : List ℕ → ℕ → List ℕ
append_bounded stack plan =
    if ltb plan_history_limit (length (plan ∷ stack))
    then drop_oldest (plan ∷ stack)
    else plan ∷ stack

-- The setter of `data`.
unfoldable pub set_data : ℕ → Node → Node
set_data value n =
    if value == n.plan
    then n
    else record { plan = value; undo_stack = append_bounded n.undo_stack n.plan; redo_stack = [] }

unfoldable pub can_undo : Node → Bool
can_undo n = not (is_empty n.undo_stack)

unfoldable pub can_redo : Node → Bool
can_redo n = not (is_empty n.redo_stack)

abbrev undo_from : Node → List ℕ → Bool × Node
undo_from n [] = (false, n)
undo_from n (top ∷ rest) = (
  true,
  record { plan = top; undo_stack = rest; redo_stack = append_bounded n.redo_stack n.plan },
)

unfoldable pub undo_data : Node → Bool × Node
undo_data n = undo_from n n.undo_stack

abbrev redo_from : Node → List ℕ → Bool × Node
redo_from n [] = (false, n)
redo_from n (top ∷ rest) = (
  true,
  record { plan = top; undo_stack = append_bounded n.undo_stack n.plan; redo_stack = rest },
)

unfoldable pub redo_data : Node → Bool × Node
redo_data n = redo_from n n.redo_stack

unfoldable pub snapshot_plan_history : Node → List ℕ × List ℕ
snapshot_plan_history n = (n.undo_stack, n.redo_stack)

-- The newest `n` plans of a stack, `stack[-n:]`.
abbrev pub newest : ℕ → List ℕ → List ℕ
newest n [] = []
newest zero (x ∷ xs) = []
newest (suc n) (x ∷ xs) = x ∷ newest n xs

unfoldable pub restore_plan_history : List ℕ × List ℕ → Node → Node
restore_plan_history (undo_stack, redo_stack) n = record {
  plan = n.plan;
  undo_stack = newest plan_history_limit undo_stack;
  redo_stack = newest plan_history_limit redo_stack;
}
