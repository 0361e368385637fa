-- ===== src/LifecycleGates/Tests.antt =====
-- The gates of workspace_lifecycle.py in a concrete history.
use ldaca_wordflow_backend.Base.{◌≡◌, refl, List, [], ◌∷◌}
use ldaca_wordflow_backend.LifecycleGates.{
  new_gates, inside, Step, enters, acquires, gives_up, leaves, abandons, step, run, enter,
}
use ldaca_wordflow_backend.LifecycleGates.History.{IsExclusive, run-IsExclusive}
use ldaca_wordflow_backend.LifecycleGates.Cleanup.{HasNoIdleGate, run-HasNoIdleGate}

-- Two calls of user 5; the second gets the lock when the first has given it up.
abbrev overlap : List Step
overlap =
    enters 1 5 ∷ enters 2 5 ∷ acquires 1 ∷ acquires 2 ∷ gives_up 1 ∷ acquires 2 ∷ leaves 1 ∷ []

overlap_state : run overlap new_gates ≡ record {
  users = (0, 1) ∷ [];
  user_gates = (5, 0) ∷ [];
  next_gate = 1;
  calls = (2, record { user_id = 5; gate = 0; stage = inside }) ∷ [];
}
unfolding run step enter
overlap_state = refl

run-IsExclusive_example : IsExclusive (run overlap new_gates)
run-IsExclusive_example = run-IsExclusive overlap

-- A call that is cancelled while it waits to leave, and a gate that stays registered without a call.
abbrev cancelled_call : List Step
cancelled_call = enters 1 5 ∷ acquires 1 ∷ gives_up 1 ∷ abandons 1 ∷ []

idle_gate :
    run cancelled_call new_gates
    ≡ record { users = (0, 1) ∷ []; user_gates = (5, 0) ∷ []; next_gate = 1; calls = [] }
unfolding run step enter
idle_gate = refl

run-HasNoIdleGate_example : HasNoIdleGate (run overlap new_gates)
run-HasNoIdleGate_example = run-HasNoIdleGate overlap refl
