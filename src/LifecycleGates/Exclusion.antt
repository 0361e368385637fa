-- ===== src/LifecycleGates/Exclusion.antt =====
-- Two calls of one user are never inside their gates in workspace_lifecycle.py at once.
use ldaca_wordflow_backend.Base.{
  ℕ, ◌+◌, ◌-◌, ◌≤◌, ◌<◌, ◌≡◌, refl, subst, arith, Bool, true, false, ◌&&◌, Bool-cases, inl, inr,
  none, some, ◌==◌, ==_iff, ==_refl, if◌then◌else◌, Dict, lookup, contains, insert, erase, IsUnique,
  lookup-insert, lookup-erase, insert-IsUnique, erase-IsUnique,
}
use ldaca_wordflow_backend.LifecycleGates.{
  Stage, waiting, leaving, Call, Gates, users_of, come_in, register_gate, holds_gate,
}
use ldaca_wordflow_backend.LifecycleGates.Counts.{
  count_calls, count_calls-insert, count_calls-erase, two-count_calls,
}

abbrev pub is_at : ℕ → Call → Bool
is_at gate c = c.gate == gate

pub record Inv (s : Gates) : Type 0 where
  pub unique_calls : IsUnique s.calls
  pub unique_gates : IsUnique s.user_gates
  pub registered :
      (k : ℕ) (c : Call) → lookup k s.calls ≡ some c → lookup c.user_id s.user_gates ≡ some c.gate
  pub counted : (g : ℕ) → count_calls (is_at g) s.calls ≤ users_of g s
  pub owned : (u v g : ℕ) → lookup u s.user_gates ≡ some g → lookup v s.user_gates ≡ some g → u ≡ v
  pub known : (u g : ℕ) → lookup u s.user_gates ≡ some g → (g < s.next_gate) × (1 ≤ users_of g s)
  pub fresh : (g : ℕ) → s.next_gate ≤ g → users_of g s ≡ 0
  pub exclusive : (g : ℕ) → count_calls (holds_gate g) s.calls ≤ 1

-- Every call stands at the registered gate of its user.
abbrev AreRegistered : Dict ℕ → Dict Call → Type 0
AreRegistered gates calls =
    (k : ℕ) (c : Call) → lookup k calls ≡ some c → lookup c.user_id gates ≡ some c.gate

insert-AreRegistered :
    (gates : Dict ℕ) (calls : Dict Call) (call : ℕ) (new : Call)
    → AreRegistered gates calls
    → lookup new.user_id gates ≡ some new.gate
    → AreRegistered gates (insert call new calls)
insert-AreRegistered gates calls call new r n k d h = elim (Bool-cases (k == call)) [
  | inl y ↦
      let same : new ≡ d = ground (arith, lookup-insert call k new calls) in
      subst (λ (x : Call). lookup x.user_id gates ≡ some x.gate) same n
  | inr m ↦ r k d (ground (arith, lookup-insert call k new calls))
]

-- A call that only changes its stage.
pub restage-Inv :
    (s : Gates) (call : ℕ) (c : Call) (st : Stage)
    → Inv s
    → lookup call s.calls ≡ some c
    → ((g : ℕ) → count_calls (holds_gate g) (insert call (record c { stage = st }) s.calls) ≤ 1)
    → Inv (record s { calls = insert call (record c { stage = st }) s.calls })
restage-Inv s call c st v l e = record {
  unique_calls = insert-IsUnique call (record c { stage = st }) s.calls v.unique_calls;
  unique_gates = v.unique_gates;
  registered =
      insert-AreRegistered s.user_gates s.calls call (record c { stage = st }) v.registered
        (v.registered call c l);
  counted = λ g.
      ground
        (arith, v.counted g, count_calls-insert (is_at g) call (record c { stage = st }) s.calls);
  owned = v.owned;
  known = v.known;
  fresh = v.fresh;
  exclusive = e;
}

pub come_in-Inv :
    (s : Gates) (call user_id gate : ℕ)
    → Inv s
    → contains call s.calls ≡ false
    → lookup user_id s.user_gates ≡ some gate
    → Inv (come_in call user_id gate s)
come_in-Inv s call user_id gate v n l =
    let c : Call = record { user_id = user_id; gate = gate; stage = waiting } in
    record {
      unique_calls = insert-IsUnique call c s.calls v.unique_calls;
      unique_gates = v.unique_gates;
      registered = insert-AreRegistered s.user_gates s.calls call c v.registered l;
      counted = λ g. ground (
        arith,
        v.counted g,
        count_calls-insert (is_at g) call c s.calls,
        lookup-insert gate g (users_of gate s + 1) s.users,
        ==_iff gate g,
        ==_iff g gate,
      );
      owned = v.owned;
      known = λ u g h.
          ground (arith, v.known u g h, lookup-insert gate g (users_of gate s + 1) s.users);
      fresh = λ g h. ground (
        arith,
        v.fresh g h,
        v.known user_id gate l,
        lookup-insert gate g (users_of gate s + 1) s.users,
        ==_iff g gate,
      );
      exclusive =
          λ g. ground (arith, v.exclusive g, count_calls-insert (holds_gate g) call c s.calls);
    }

-- A gate that is registered for a user without one, before the call that asked for it comes in.
pub enter_new-Inv :
    (s : Gates) (call user_id : ℕ)
    → Inv s
    → contains call s.calls ≡ false
    → lookup user_id s.user_gates ≡ none
    → Inv (come_in call user_id s.next_gate (register_gate user_id s))
enter_new-Inv s call user_id v n l =
    let new = s.next_gate in
    let c : Call = record { user_id = user_id; gate = new; stage = waiting } in
    let gates = insert user_id new s.user_gates in
    record {
      unique_calls = insert-IsUnique call c s.calls v.unique_calls;
      unique_gates = insert-IsUnique user_id new s.user_gates v.unique_gates;
      registered =
          insert-AreRegistered gates s.calls call c
            (λ k d h. ground (
              arith,
              v.registered k d h,
              lookup-insert user_id d.user_id new s.user_gates,
              ==_iff d.user_id user_id,
            ))
            (ground (arith, lookup-insert user_id user_id new s.user_gates, ==_refl user_id));
      counted = λ g. ground (
        arith,
        v.counted g,
        v.fresh new,
        count_calls-insert (is_at g) call c s.calls,
        lookup-insert new g (users_of new s + 1) s.users,
        ==_iff new g,
        ==_iff g new,
      );
      owned = λ u w g h i. ground (
        arith,
        lookup-insert user_id u new s.user_gates,
        lookup-insert user_id w new s.user_gates,
        v.owned u w g,
        v.known u g,
        v.known w g,
        ==_iff u user_id,
        ==_iff w user_id,
      );
      known = λ u g h. ground (
        arith,
        lookup-insert user_id u new s.user_gates,
        v.known u g,
        lookup-insert new g (users_of new s + 1) s.users,
        ==_iff g new,
      );
      fresh = λ g h.
          ground (arith, v.fresh g, lookup-insert new g (users_of new s + 1) s.users, ==_iff g new);
      exclusive =
          λ g. ground (arith, v.exclusive g, count_calls-insert (holds_gate g) call c s.calls);
    }

-- The gates with one of them taken out, or all of them.
lookup-left :
    (b : Bool) (user : ℕ) (gates : Dict ℕ)
    → IsUnique gates
    → (u : ℕ)
    → lookup u (if b then erase user gates else gates)
      ≡ (if b && u == user then none else lookup u gates)
lookup-left true user gates h u = lookup-erase user u gates h
lookup-left false user gates h u = refl

pub leave-Inv :
    (s : Gates) (call : ℕ) (c : Call)
    → Inv s
    → lookup call s.calls ≡ some c
    → c.stage ≡ leaving
    → Inv (record s {
      users = insert c.gate (users_of c.gate s - 1) s.users;
      user_gates =
          if users_of c.gate s - 1 == 0 then erase c.user_id s.user_gates else s.user_gates;
      calls = erase call s.calls;
    })
leave-Inv s call c v l e =
    let left = users_of c.gate s - 1 in
    let gates = lookup-left (left == 0) c.user_id s.user_gates v.unique_gates in
    let home = v.registered call c l in
    record {
      unique_calls = erase-IsUnique call s.calls v.unique_calls;
      unique_gates =
          ground (arith, v.unique_gates, erase-IsUnique c.user_id s.user_gates v.unique_gates);
      registered = λ k d h. ground (
        arith,
        lookup-erase call k s.calls v.unique_calls,
        v.registered k d,
        home,
        two-count_calls (is_at c.gate) call k s.calls,
        v.counted c.gate,
        gates d.user_id,
        ==_iff d.user_id c.user_id,
        ==_iff call k,
        ==_iff k call,
        ==_iff d.gate c.gate,
        ==_refl c.gate,
      );
      counted = λ g. ground (
        arith,
        v.counted g,
        v.known c.user_id c.gate (v.registered call c l),
        count_calls-erase (is_at g) call s.calls,
        lookup-insert c.gate g left s.users,
        ==_iff c.gate g,
        ==_iff g c.gate,
      );
      owned = λ u w g h i. ground (arith, gates u, gates w, v.owned u w g);
      known = λ u g h. ground (
        arith,
        gates u,
        v.known u g,
        v.owned u c.user_id c.gate,
        home,
        lookup-insert c.gate g left s.users,
        ==_iff g c.gate,
        ==_iff u c.user_id,
      );
      fresh = λ g h. ground (
        arith,
        v.fresh g h,
        v.known c.user_id c.gate (v.registered call c l),
        lookup-insert c.gate g left s.users,
        ==_iff g c.gate,
      );
      exclusive = λ g. ground (arith, v.exclusive g, count_calls-erase (holds_gate g) call s.calls);
    }

pub abandon-Inv :
    (s : Gates) (call : ℕ) (c : Call)
    → Inv s
    → lookup call s.calls ≡ some c
    → Inv (record s { calls = erase call s.calls })
abandon-Inv s call c v l = record {
  unique_calls = erase-IsUnique call s.calls v.unique_calls;
  unique_gates = v.unique_gates;
  registered =
      λ k d h. v.registered k d (ground (arith, lookup-erase call k s.calls v.unique_calls));
  counted = λ g. ground (arith, v.counted g, count_calls-erase (is_at g) call s.calls);
  owned = v.owned;
  known = v.known;
  fresh = v.fresh;
  exclusive = λ g. ground (arith, v.exclusive g, count_calls-erase (holds_gate g) call s.calls);
}
