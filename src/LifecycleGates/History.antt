-- ===== src/LifecycleGates/History.antt =====
-- Every history of the gates in workspace_lifecycle.py.
use ldaca_wordflow_backend.Base.{
  ℕ, ◌≡◌, refl, arith, true, false, Option, none, some, List, [], ◌∷◌, any, any-count_if, ==_iff,
  ==_refl, split_if, lookup, contains, insert,
}
use ldaca_wordflow_backend.LifecycleGates.{
  Stage, waiting, inside, leaving, Call, Gates, new_gates, enter_at, enter, holds_gate, is_inside,
  acquire_at, give_up_at, leave_at, abandon_at, at_call, Step, enters, acquires, gives_up, leaves,
  abandons, step, run,
}
use ldaca_wordflow_backend.LifecycleGates.Counts.{count_calls-insert, two-count_calls}
use ldaca_wordflow_backend.LifecycleGates.Exclusion.{
  Inv, restage-Inv, come_in-Inv, enter_new-Inv, leave-Inv, abandon-Inv,
}

enter_at-Inv :
    (s : Gates) (call user_id : ℕ) (found : Option ℕ)
    → Inv s
    → contains call s.calls ≡ false
    → lookup user_id s.user_gates ≡ found
    → Inv (enter_at call user_id found s)
enter_at-Inv s call user_id none v n l = enter_new-Inv s call user_id v n l
enter_at-Inv s call user_id (some gate) v n l = come_in-Inv s call user_id gate v n l

enter-Inv : (s : Gates) (call user_id : ℕ) → Inv s → Inv (enter call user_id s)
unfolding enter
enter-Inv s call user_id v =
    split_if Inv (contains call s.calls) (λ e. v)
      (λ e. enter_at-Inv s call user_id (lookup user_id s.user_gates) v e refl)

-- A call goes inside when no call holds the lock of its gate.
inside-Inv :
    (s : Gates) (call : ℕ) (c : Call)
    → Inv s
    → lookup call s.calls ≡ some c
    → any (λ e. holds_gate c.gate e.1) s.calls ≡ false
    → Inv (record s { calls = insert call (record c { stage = inside }) s.calls })
inside-Inv s call c v l a = restage-Inv s call c inside v l (λ g. ground (
  arith,
  v.exclusive g,
  any-count_if (λ e. holds_gate c.gate e.1) s.calls a,
  count_calls-insert (holds_gate g) call (record c { stage = inside }) s.calls,
  ==_iff c.gate g,
))

acquire-Inv :
    (s : Gates) (call : ℕ) (c : Call) (st : Stage)
    → Inv s
    → lookup call s.calls ≡ some c
    → c.stage ≡ st
    → Inv (acquire_at call c s)
acquire-Inv s call c waiting v l e =
    rw (e, acquire_at)
      (split_if Inv (any (λ e. holds_gate c.gate e.1) s.calls) (λ h. v)
        (λ h. inside-Inv s call c v l h))
acquire-Inv s call c inside v l e = rw (e, acquire_at) v
acquire-Inv s call c leaving v l e = rw (e, acquire_at) v

give_up-Inv :
    (s : Gates) (call : ℕ) (c : Call)
    → Inv s
    → lookup call s.calls ≡ some c
    → Inv (give_up_at call c s)
give_up-Inv s call c v l = restage-Inv s call c leaving v l (λ g. ground (
  arith,
  v.exclusive g,
  count_calls-insert (holds_gate g) call (record c { stage = leaving }) s.calls,
))

leave_at-Inv :
    (s : Gates) (call : ℕ) (c : Call) (st : Stage)
    → Inv s
    → lookup call s.calls ≡ some c
    → c.stage ≡ st
    → Inv (leave_at call c s)
leave_at-Inv s call c waiting v l e = rw (e, leave_at) v
leave_at-Inv s call c inside v l e = rw (e, leave_at) v
leave_at-Inv s call c leaving v l e = rw (e, leave_at) (leave-Inv s call c v l e)

abandon_at-Inv :
    (s : Gates) (call : ℕ) (c : Call) (st : Stage)
    → Inv s
    → lookup call s.calls ≡ some c
    → c.stage ≡ st
    → Inv (abandon_at call c s)
abandon_at-Inv s call c waiting v l e = rw (e, abandon_at) v
abandon_at-Inv s call c inside v l e = rw (e, abandon_at) v
abandon_at-Inv s call c leaving v l e = rw (e, abandon_at) (abandon-Inv s call c v l)

at_call-Inv :
    (f : ℕ → Call → Gates → Gates) (call : ℕ) (s : Gates) (found : Option Call)
    → Inv s
    → lookup call s.calls ≡ found
    → ((c : Call) → lookup call s.calls ≡ some c → Inv (f call c s))
    → Inv (at_call f call s)
at_call-Inv f call s none v l h = rw (l, at_call) v
at_call-Inv f call s (some c) v l h = rw (l, at_call) (h c l)

pub step-Inv : (x : Step) (s : Gates) → Inv s → Inv (step x s)
unfolding step
step-Inv (enters call user_id) s v = enter-Inv s call user_id v
step-Inv (acquires call) s v =
    at_call-Inv acquire_at call s (lookup call s.calls) v refl
      (λ c l. acquire-Inv s call c c.stage v l refl)
step-Inv (gives_up call) s v =
    at_call-Inv give_up_at call s (lookup call s.calls) v refl (λ c l. give_up-Inv s call c v l)
step-Inv (leaves call) s v =
    at_call-Inv leave_at call s (lookup call s.calls) v refl
      (λ c l. leave_at-Inv s call c c.stage v l refl)
step-Inv (abandons call) s v =
    at_call-Inv abandon_at call s (lookup call s.calls) v refl
      (λ c l. abandon_at-Inv s call c c.stage v l refl)

run-Inv : (xs : List Step) (s : Gates) → Inv s → Inv (run xs s)
unfolding run
run-Inv [] s v = v
run-Inv (x ∷ xs) s v = run-Inv xs (step x s) (step-Inv x s v)

pub new_gates-Inv : Inv new_gates
new_gates-Inv = record {
  unique_calls = tt;
  unique_gates = tt;
  registered = λ k c h. ground arith;
  counted = λ g. omega arith;
  owned = λ u v g h i. ground arith;
  known = λ u g h. ground arith;
  fresh = λ g h. refl;
  exclusive = λ g. omega arith;
}

-- What holds of the gates at any time.
pub record IsExclusive (s : Gates) : Type 0 where
  pub one_inside :
      (j k : ℕ) (c d : Call)
      → lookup j s.calls ≡ some c
      → lookup k s.calls ≡ some d
      → c.user_id ≡ d.user_id
      → is_inside c.stage ≡ true
      → is_inside d.stage ≡ true
      → j ≡ k
  pub at_registered :
      (k : ℕ) (c : Call) → lookup k s.calls ≡ some c → lookup c.user_id s.user_gates ≡ some c.gate

-- In whatever order calls come in, take and give up locks, leave or are cancelled while they leave:
-- of the calls of one user at most one is inside, and each call is at the gate that is registered for
-- its user.
pub run-IsExclusive : (xs : List Step) → IsExclusive (run xs new_gates)
run-IsExclusive xs =
    let s = run xs new_gates in
    let v = run-Inv xs new_gates new_gates-Inv in
    record {
      one_inside = λ j k c d l m same p q. ground (
        arith,
        v.registered j c l,
        v.registered k d m,
        v.exclusive c.gate,
        two-count_calls (holds_gate c.gate) j k s.calls,
        ==_iff j k,
        ==_refl c.gate,
        ==_refl d.gate,
      );
      at_registered = v.registered;
    }
