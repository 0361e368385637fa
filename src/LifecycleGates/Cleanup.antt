-- ===== src/LifecycleGates/Cleanup.antt =====
-- The gates of workspace_lifecycle.py are taken out again while no call is cancelled.
use ldaca_wordflow_backend.Base.{
  ℕ, ◌+◌, ◌-◌, ◌≤◌, ◌≡◌, refl, arith, Bool, true, false, Option, none, some, List, [], ◌∷◌, any,
  all, ==_iff, split_if, lookup, contains, insert, lookup-insert,
}
use ldaca_wordflow_backend.LifecycleGates.{
  Stage, waiting, inside, leaving, Call, Gates, new_gates, users_of, come_in, register_gate,
  enter_at, enter, holds_gate, acquire_at, give_up_at, leave_at, at_call, Step, enters, acquires,
  gives_up, leaves, abandons, step, run,
}
use ldaca_wordflow_backend.LifecycleGates.Counts.{
  count_calls, count_calls-insert, count_calls-erase,
}
use ldaca_wordflow_backend.LifecycleGates.Exclusion.{Inv, is_at}
use ldaca_wordflow_backend.LifecycleGates.History.{step-Inv, new_gates-Inv}

-- A gate's users are the calls at it.
abbrev IsExact : Gates → Type 0
IsExact s = (g : ℕ) → count_calls (is_at g) s.calls ≡ users_of g s

restage-IsExact :
    (s : Gates) (call : ℕ) (c : Call) (st : Stage)
    → IsExact s
    → lookup call s.calls ≡ some c
    → IsExact (record s { calls = insert call (record c { stage = st }) s.calls })
restage-IsExact s call c st x l g =
    ground (arith, x g, count_calls-insert (is_at g) call (record c { stage = st }) s.calls)

come_in-IsExact :
    (s : Gates) (call user_id gate : ℕ)
    → IsExact s
    → contains call s.calls ≡ false
    → IsExact (come_in call user_id gate s)
come_in-IsExact s call user_id gate x n g =
    let c : Call = record { user_id = user_id; gate = gate; stage = waiting } in
    ground (
      arith,
      x g,
      count_calls-insert (is_at g) call c s.calls,
      lookup-insert gate g (users_of gate s + 1) s.users,
      ==_iff gate g,
      ==_iff g gate,
    )

enter_at-IsExact :
    (s : Gates) (call user_id : ℕ) (found : Option ℕ)
    → IsExact s
    → contains call s.calls ≡ false
    → IsExact (enter_at call user_id found s)
enter_at-IsExact s call user_id none x n =
    come_in-IsExact (register_gate user_id s) call user_id s.next_gate x n
enter_at-IsExact s call user_id (some gate) x n = come_in-IsExact s call user_id gate x n

acquire-IsExact :
    (s : Gates) (call : ℕ) (c : Call) (st : Stage)
    → IsExact s
    → lookup call s.calls ≡ some c
    → c.stage ≡ st
    → IsExact (acquire_at call c s)
acquire-IsExact s call c waiting x l e =
    rw (e, acquire_at)
      (split_if IsExact (any (λ e. holds_gate c.gate e.1) s.calls) (λ h. x)
        (λ h. restage-IsExact s call c inside x l))
acquire-IsExact s call c inside x l e = rw (e, acquire_at) x
acquire-IsExact s call c leaving x l e = rw (e, acquire_at) x

leave-IsExact :
    (s : Gates) (call : ℕ) (c : Call) (st : Stage)
    → Inv s
    → IsExact s
    → lookup call s.calls ≡ some c
    → c.stage ≡ st
    → IsExact (leave_at call c s)
leave-IsExact s call c waiting v x l e = rw (e, leave_at) x
leave-IsExact s call c inside v x l e = rw (e, leave_at) x
leave-IsExact s call c leaving v x l e =
    rw (e, leave_at)
      (λ g. ground (
        arith,
        x g,
        v.known c.user_id c.gate (v.registered call c l),
        count_calls-erase (is_at g) call s.calls,
        lookup-insert c.gate g (users_of c.gate s - 1) s.users,
        ==_iff c.gate g,
        ==_iff g c.gate,
      ))

at_call-IsExact :
    (f : ℕ → Call → Gates → Gates) (call : ℕ) (s : Gates) (found : Option Call)
    → IsExact s
    → lookup call s.calls ≡ found
    → ((c : Call) → lookup call s.calls ≡ some c → IsExact (f call c s))
    → IsExact (at_call f call s)
at_call-IsExact f call s none x l h = rw (l, at_call) x
at_call-IsExact f call s (some c) x l h = rw (l, at_call) (h c l)

-- No call is cancelled while it leaves.
abbrev pub is_undisturbed : Step → Bool
is_undisturbed (abandons call) = false
is_undisturbed _ = true

step-IsExact :
    (x : Step) (s : Gates) → is_undisturbed x ≡ true → Inv s → IsExact s → IsExact (step x s)
unfolding step enter
step-IsExact (enters call user_id) s u v x =
    split_if IsExact (contains call s.calls) (λ e. x)
      (λ e. enter_at-IsExact s call user_id (lookup user_id s.user_gates) x e)
step-IsExact (acquires call) s u v x =
    at_call-IsExact acquire_at call s (lookup call s.calls) x refl
      (λ c l. acquire-IsExact s call c c.stage x l refl)
step-IsExact (gives_up call) s u v x =
    at_call-IsExact give_up_at call s (lookup call s.calls) x refl
      (λ c l. restage-IsExact s call c leaving x l)
step-IsExact (leaves call) s u v x =
    at_call-IsExact leave_at call s (lookup call s.calls) x refl
      (λ c l. leave-IsExact s call c c.stage v x l refl)
step-IsExact (abandons call) s u v x = ground arith

-- A gate is registered only while some call is at it.
abbrev pub HasNoIdleGate : Gates → Type 0
HasNoIdleGate s = (u g : ℕ) → lookup u s.user_gates ≡ some g → 1 ≤ count_calls (is_at g) s.calls

run_from-HasNoIdleGate :
    (xs : List Step) (s : Gates)
    → all is_undisturbed xs ≡ true
    → Inv s
    → IsExact s
    → HasNoIdleGate (run xs s)
unfolding run
run_from-HasNoIdleGate [] s h v x = λ u g l. ground (arith, v.known u g l, x g)
run_from-HasNoIdleGate (y ∷ ys) s h v x =
    run_from-HasNoIdleGate ys (step y s) (ground arith) (step-Inv y s v)
      (step-IsExact y s (ground arith) v x)

-- In a history in which no call is cancelled while it waits to leave, a gate is registered only while
-- some call is at it.
pub run-HasNoIdleGate :
    (xs : List Step) → all is_undisturbed xs ≡ true → HasNoIdleGate (run xs new_gates)
run-HasNoIdleGate xs h = run_from-HasNoIdleGate xs new_gates h new_gates-Inv (λ g. refl)
