-- ===== src/Quota/Ledger.antt =====
-- The ledger of quota.py: what the service has reserved for a user is what the user's reservations
-- hold, after every history of calls.
use ldaca_wordflow_backend.Base.{
  ℕ, suc, ◌+◌, ◌-◌, ◌≤◌, ◌≡◌, ◌≢◌, refl, ap, Bool, true, false, Option, none, some, [], ◌∷◌, arith,
  ◌==◌, if◌then◌else◌, Dict, lookup, insert, IsUnique, lookup-insert, lookup-erase, insert-IsUnique,
  erase-IsUnique, is_some, length,
}
use ldaca_wordflow_backend.Quota.{
  QuotaReservation, QuotaService, reserved_of, set_reserved, hand_out, new,
}

-- What one reservation holds for a user.
abbrev pub held : ℕ → QuotaReservation → ℕ
held user_id r = if r.user_id == user_id then r.reserved_bytes else 0

-- What a user's reservations hold.
abbrev pub held_by : ℕ → Dict QuotaReservation → ℕ
held_by user_id [] = 0
held_by user_id (e ∷ d) = held user_id e.1 + held_by user_id d

abbrev pub held_at : ℕ → Option QuotaReservation → ℕ
held_at user_id none = 0
held_at user_id (some r) = held user_id r

pub held_by-insert :
    (u h : ℕ) (r : QuotaReservation) (d : Dict QuotaReservation)
    → held_by u (insert h r d) + held_at u (lookup h d) ≡ held_by u d + held u r
held_by-insert u h r [] = omega arith
held_by-insert u h r (e ∷ d) = ground (arith, held_by-insert u h r d)

-- Handles are given out in order, so the next one is new.
abbrev pub IsNumbered : ℕ → Dict QuotaReservation → Type 0
IsNumbered n [] = Unit
IsNumbered n (e ∷ d) = (e.0 ≡ n) × IsNumbered (suc n) d

pub record IsBalanced (s : QuotaService) : Type 0 where
  pub users_unique : IsUnique s.reserved_by_user
  pub numbered : IsNumbered 0 s.reservations
  pub balanced : (u : ℕ) → reserved_of u s.reserved_by_user ≡ held_by u s.reservations
  pub positive : (u : ℕ) → lookup u s.reserved_by_user ≢ some 0

pub lookup-IsNumbered :
    (n m : ℕ) (d : Dict QuotaReservation) → IsNumbered n d → n + length d ≤ m → lookup m d ≡ none
lookup-IsNumbered n m [] h le = refl
lookup-IsNumbered n m (e ∷ d) h le = ground (arith, lookup-IsNumbered (suc n) m d h.1)

insert-IsNumbered_new :
    (n m : ℕ) (r : QuotaReservation) (d : Dict QuotaReservation)
    → IsNumbered n d
    → n + length d ≡ m
    → IsNumbered n (insert m r d)
insert-IsNumbered_new n m r [] h e = ground arith
insert-IsNumbered_new n m r (x ∷ d) h e = ground (arith, insert-IsNumbered_new (suc n) m r d h.1)

insert-IsNumbered_old :
    (n m : ℕ) (r : QuotaReservation) (d : Dict QuotaReservation)
    → IsNumbered n d
    → is_some (lookup m d) ≡ true
    → IsNumbered n (insert m r d)
insert-IsNumbered_old n m r [] h e = cc
insert-IsNumbered_old n m r (x ∷ d) h e = ground (arith, insert-IsNumbered_old (suc n) m r d h.1)

pub reserved_of-set_reserved :
    (u j v : ℕ) (d : Dict ℕ)
    → IsUnique d
    → reserved_of j (set_reserved u v d) ≡ (if j == u then v else reserved_of j d)
unfolding set_reserved
reserved_of-set_reserved u j v d k = ground (arith, lookup-erase u j d k, lookup-insert u j v d)

pub set_reserved-IsUnique : (u v : ℕ) (d : Dict ℕ) → IsUnique d → IsUnique (set_reserved u v d)
unfolding set_reserved
set_reserved-IsUnique u v d k = ground (arith, erase-IsUnique u d k, insert-IsUnique u v d k)

pub set_reserved-positive :
    (u j v : ℕ) (d : Dict ℕ)
    → IsUnique d
    → lookup j d ≢ some 0
    → lookup j (set_reserved u v d) ≢ some 0
unfolding set_reserved
set_reserved-positive u j v d k h e = ground (arith, lookup-erase u j d k, lookup-insert u j v d)

-- A reservation holds no more than its user's reservations together.
pub held_by-lookup :
    (u h : ℕ) (r : QuotaReservation) (d : Dict QuotaReservation)
    → lookup h d ≡ some r
    → held u r ≤ held_by u d
held_by-lookup u h r [] e = cc
held_by-lookup u h r (x ∷ d) e = ground (arith, held_by-lookup u h r d)

pub new-IsBalanced : IsBalanced new
unfolding new
new-IsBalanced = record {
  users_unique = tt;
  numbered = tt;
  balanced = λ u. refl;
  positive = λ u e. cc;
}

pub hand_out-IsBalanced :
    (user bytes : ℕ) (ledger : Dict ℕ) (s : QuotaService)
    → IsBalanced s
    → IsUnique ledger
    → ((j : ℕ)
        → (reserved_of j ledger ≡ (
            if user == j
            then reserved_of j s.reserved_by_user + bytes
            else reserved_of j s.reserved_by_user))
          × (lookup j ledger ≢ some 0))
    → IsBalanced (hand_out user bytes ledger s).1
unfolding hand_out
hand_out-IsBalanced user bytes ledger s v k h =
    let n = length s.reservations in
    let fresh : QuotaReservation = record {
      user_id = user;
      reserved_bytes = bytes;
      released = false;
    } in
    let unused = lookup-IsNumbered 0 n s.reservations v.numbered (omega arith) in
    record {
      users_unique = k;
      numbered = insert-IsNumbered_new 0 n fresh s.reservations v.numbered (omega arith);
      balanced =
          λ j. ground (arith, h j, v.balanced j, unused, held_by-insert j n fresh s.reservations);
      positive = λ j. (h j).1;
    }

-- A reservation that is there takes a new size.
pub resize-IsBalanced :
    (h bytes : ℕ) (released : Bool) (r : QuotaReservation) (ledger : Dict ℕ) (s : QuotaService)
    → IsBalanced s
    → lookup h s.reservations ≡ some r
    → IsUnique ledger
    → ((j : ℕ)
        → (reserved_of j ledger ≡ (
            if r.user_id == j
            then reserved_of j s.reserved_by_user - r.reserved_bytes + bytes
            else reserved_of j s.reserved_by_user))
          × (lookup j ledger ≢ some 0))
    → IsBalanced (record {
      reserved_by_user = ledger;
      reservations =
          insert h (record r { reserved_bytes = bytes; released = released }) s.reservations;
    })
resize-IsBalanced h bytes released r ledger s v e k l =
    let changed : QuotaReservation = record r { reserved_bytes = bytes; released = released } in
    record {
      users_unique = k;
      numbered = insert-IsNumbered_old 0 h changed s.reservations v.numbered (ap is_some e);
      balanced = λ j. ground (
        arith,
        l j,
        v.balanced j,
        held_by-insert j h changed s.reservations,
        held_by-lookup j h r s.reservations e,
      );
      positive = λ j. (l j).1;
    }
