-- ===== src/LifecycleGates.antt =====
-- src/ldaca_wordflow/services/workspace_lifecycle.py: the gates of `_user_gate`, one lock for each user
-- with calls under way. A section under `_gate_registry_lock` is one step; so are taking and giving up
-- the lock of a gate. A gate is an object, found by its number also when it is no longer registered.
-- A call keeps the gate that it found when it came in.
pub mod Cleanup
pub mod Counts
pub mod History
pub mod Exclusion
mod Tests
use ldaca_wordflow_backend.Base.{
  ℕ, ◌+◌, ◌-◌, Bool, true, false, not, ◌&&◌, Option, none, some, List, [], ◌∷◌, any, ◌==◌,
  if◌then◌else◌, Dict, lookup, contains, insert, erase,
}

-- Where a call stands in `_user_gate`: before the lock, in the body, or past it.
pub data Stage : Type 0 where
  waiting inside leaving : Stage

pub record Call : Type 0 where
  pub user_id : ℕ
  pub gate : ℕ
  pub stage : Stage

-- `users` of each gate object, the registered gate of each user, the next object, and the calls.
pub record Gates : Type 0 where
  pub users : Dict ℕ
  pub user_gates : Dict ℕ
  pub next_gate : ℕ
  pub calls : Dict Call

abbrev pub new_gates : Gates
new_gates = record { users = []; user_gates = []; next_gate = 0; calls = [] }

abbrev pub or_zero : Option ℕ → ℕ
or_zero none = 0
or_zero (some n) = n

abbrev pub users_of : ℕ → Gates → ℕ
users_of gate s = or_zero (lookup gate s.users)

-- A call comes in at a gate, `gate.users += 1`.
abbrev pub come_in : (call user_id gate : ℕ) → Gates → Gates
come_in call user_id gate s = record s {
  users = insert gate (users_of gate s + 1) s.users;
  calls = insert call (record { user_id = user_id; gate = gate; stage = waiting }) s.calls;
}

-- A new gate, registered for its user.
abbrev pub register_gate : ℕ → Gates → Gates
register_gate user_id s = record s {
  user_gates = insert user_id s.next_gate s.user_gates;
  next_gate = s.next_gate + 1;
}

-- The first section of `_user_gate`, with the gate that it found.
abbrev pub enter_at : (call user_id : ℕ) → Option ℕ → Gates → Gates
enter_at call user_id (some gate) s = come_in call user_id gate s
enter_at call user_id none s = come_in call user_id s.next_gate (register_gate user_id s)

-- A call has a number that no call under way has.
unfoldable pub enter : (call user_id : ℕ) → Gates → Gates
enter call user_id s =
    if contains call s.calls then s else enter_at call user_id (lookup user_id s.user_gates) s

abbrev pub is_inside : Stage → Bool
is_inside inside = true
is_inside _ = false

abbrev pub holds_gate : ℕ → Call → Bool
holds_gate gate c = c.gate == gate && is_inside c.stage

-- `async with gate.lock`: the lock is taken when no call holds it.
abbrev pub acquire_at : ℕ → Call → Gates → Gates
acquire_at call c s = elim c.stage [
  | waiting ↦
      if any (λ e. holds_gate c.gate e.1) s.calls
      then s
      else record s { calls = insert call (record c { stage = inside }) s.calls }
  | inside ↦ s
  | leaving ↦ s
]

-- The body ends, or waiting is cancelled; the lock is given up if it was held.
abbrev pub give_up_at : ℕ → Call → Gates → Gates
give_up_at call c s = record s { calls = insert call (record c { stage = leaving }) s.calls }

-- The last section, when the registry's lock is taken: `gate.users -= 1`, and an unused gate is
-- taken out.
abbrev pub leave_at : ℕ → Call → Gates → Gates
leave_at call c s = elim c.stage [
  | waiting ↦ s
  | inside ↦ s
  | leaving ↦ record s {
    users = insert c.gate (users_of c.gate s - 1) s.users;
    user_gates = if users_of c.gate s - 1 == 0 then erase c.user_id s.user_gates else s.user_gates;
    calls = erase call s.calls;
  }
]

-- The last section does not shield itself: in a call that is cancelled, waiting for the registry's
-- lock raises at once, and `gate.users` and the registry stay as they are.
abbrev pub abandon_at : ℕ → Call → Gates → Gates
abandon_at call c s = elim c.stage [
  | waiting ↦ s
  | inside ↦ s
  | leaving ↦ record s { calls = erase call s.calls }
]

-- A step of a call that is under way.
abbrev pub at_call : (ℕ → Call → Gates → Gates) → ℕ → Gates → Gates
at_call f call s = elim (lookup call s.calls) [ none ↦ s | some c ↦ f call c s ]

pub data Step : Type 0 where
  enters : (call user_id : ℕ) → Step
  acquires gives_up leaves abandons : ℕ → Step

unfoldable pub step : Step → Gates → Gates
unfolding enter
step (enters call user_id) s = enter call user_id s
step (acquires call) s = at_call acquire_at call s
step (gives_up call) s = at_call give_up_at call s
step (leaves call) s = at_call leave_at call s
step (abandons call) s = at_call abandon_at call s

unfoldable pub run : List Step → Gates → Gates
run [] s = s
run (x ∷ xs) s = run xs (step x s)
