-- ===== src/NodePlans/Tests.antt =====
-- node.py at concrete inputs.
use ldaca_wordflow_backend.Base.{◌≡◌, refl, List, [], ◌∷◌}
use ldaca_wordflow_backend.NodePlans.{create, append_bounded, set_data, undo_data, redo_data}
use ldaca_wordflow_backend.NodePlans.History.{
  Edit, assigning, undoing, redoing, run, AreInverse, run-AreInverse,
}

abbrev edits : List Edit
edits = assigning 2 ∷ assigning 3 ∷ undoing ∷ undoing ∷ redoing ∷ []

middle : run edits (create 1) ≡ record { plan = 2; undo_stack = 1 ∷ []; redo_stack = 3 ∷ [] }
unfolding create append_bounded set_data undo_data redo_data
middle = refl

run-AreInverse_example : AreInverse (run edits (create 1))
run-AreInverse_example = run-AreInverse 1 edits
