-- ===== src/Quota/Rollback.antt =====
-- A reservation of quota.py that is released at once leaves the ledger as it was.
use ldaca_wordflow_backend.Base.{
  ℕ, ◌+◌, ◌<◌, ◌≡◌, refl, sym, subst, inl, inr, true, false, ◌&&◌, none, some, arith, ◌==◌, ltb,
  Dict, lookup, lookup-insert, length, if◌then◌else◌, Option-cases, split_if, Result, ok, err,
}
use ldaca_wordflow_backend.Quota.{
  QuotaReservation, QuotaService, QuotaError, Reading, reserved_of, reservation_bytes, hand_out,
  reserve_finite, reserve, release, release_section, mark_released, give_back,
}
use ldaca_wordflow_backend.Quota.Ledger.{
  IsBalanced, held_by, held_at, held_by-insert, lookup-IsNumbered,
}
use ldaca_wordflow_backend.Quota.Admission.{Returns, reserve-IsBalanced, release-IsBalanced}

held_by-mark_released :
    (j h : ℕ) (s : QuotaService)
    → held_by j (mark_released h s).reservations ≡ held_by j s.reservations
unfolding mark_released
held_by-mark_released j h s = elim (Option-cases (lookup h s.reservations)) [
  | inl unknown ↦ rw (unknown, mark_released) refl
  | inr (r, e) ↦
      let marked : QuotaReservation = record r { released = true } in
      rw (e, mark_released) (ground (arith, held_by-insert j h marked s.reservations))
]

held_by-release_section :
    (j h : ℕ) (r : QuotaReservation) (s : QuotaService)
    → lookup h s.reservations ≡ some r
    → held_by j (release_section h s).reservations + held_at j (some r) ≡ held_by j s.reservations
unfolding release_section give_back
held_by-release_section j h r s e =
    let gone : QuotaReservation = record r { reserved_bytes = 0 } in
    rw (e, release_section) (ground (arith, held_by-insert j h gone s.reservations))

-- What a release takes from the reservations of a user.
held_by-release :
    (j h : ℕ) (r : QuotaReservation) (s : QuotaService)
    → lookup h s.reservations ≡ some r
    → r.released ≡ false
    → held_by j (release h s).reservations + held_at j (some r) ≡ held_by j s.reservations
unfolding release
held_by-release j h r s e live =
    let freed : QuotaService = if r.reserved_bytes == 0 then s else release_section h s in
    let kept : held_by j freed.reservations + held_at j (some r) ≡ held_by j s.reservations =
      split_if
        (λ (t : QuotaService).
          held_by j t.reservations + held_at j (some r) ≡ held_by j s.reservations)
        (r.reserved_bytes == 0) (λ n. ground arith) (λ n. held_by-release_section j h r s e) in
    let after : release h s ≡ mark_released h freed = rw (e, release, live) refl in
    rw after (ground (arith, kept, held_by-mark_released j h freed))

-- What a reservation is: the next handle, with some bytes and a new ledger.
abbrev IsHandOut : ℕ → QuotaService → ℕ × QuotaService → Type 0
IsHandOut user s t = (bytes : ℕ) × (ledger : Dict ℕ) × (t ≡ hand_out user bytes ledger s)

reserve-IsHandOut :
    (user bytes entries : ℕ) (now : Reading) (s : QuotaService)
    → Returns (IsHandOut user s) (reserve user bytes entries now s)
unfolding reserve reserve_finite
reserve-IsHandOut user bytes entries now s = elim (Option-cases now.limit) [
  | inl unlimited ↦ rw (unlimited, reserve) (0, s.reserved_by_user, refl)
  | inr (limit, finite) ↦
      rw (finite, reserve)
        (split_if (Returns (IsHandOut user s)) (bytes == 0 && entries == 0)
          (λ e. (0, s.reserved_by_user, refl))
          (λ e.
            split_if (Returns (IsHandOut user s))
              (ltb limit (
                now.used
                + reserved_of user s.reserved_by_user
                + reservation_bytes bytes entries now.unit))
              (λ over. tt) (λ fits. (_, _, refl))))
]

release-hand_out :
    (j user bytes : ℕ) (ledger : Dict ℕ) (s : QuotaService)
    → IsBalanced s
    → IsBalanced (hand_out user bytes ledger s).1
    → reserved_of j
        (release (hand_out user bytes ledger s).0 (hand_out user bytes ledger s).1).reserved_by_user
      ≡ reserved_of j s.reserved_by_user
unfolding hand_out
release-hand_out j user bytes ledger s v w =
    let h = length s.reservations in
    let r : QuotaReservation = record {
      user_id = user;
      reserved_bytes = bytes;
      released = false;
    } in
    let t = (hand_out user bytes ledger s).1 in
    let here : lookup h t.reservations ≡ some r =
      ground (arith, lookup-insert h h r s.reservations) in
    let unused : lookup h s.reservations ≡ none =
      lookup-IsNumbered 0 h s.reservations v.numbered (omega arith) in
    let after = release-IsBalanced t w h in
    ground (
      arith,
      after.balanced j,
      v.balanced j,
      held_by-release j h r t here refl,
      held_by-insert j h r s.reservations,
    )

abbrev pub Restores : QuotaService → ℕ × QuotaService → Type 0
Restores s t =
    (j : ℕ) → reserved_of j (release t.0 t.1).reserved_by_user ≡ reserved_of j s.reserved_by_user

Returns-map :
    {A B C : ℕ × QuotaService → Type 0} (r : Result QuotaError (ℕ × QuotaService))
    → ((t : ℕ × QuotaService) → A t → B t → C t)
    → Returns A r
    → Returns B r
    → Returns C r
Returns-map (ok t) f a b = f t a b
Returns-map (err e) f a b = tt

-- With a balanced ledger and a positive allocation unit, releasing the reservation that a request
-- gave leaves every user with the bytes that were reserved before the request.
pub reserve-Restores :
    (user bytes entries : ℕ) (now : Reading) (s : QuotaService)
    → 0 < now.unit
    → IsBalanced s
    → Returns (Restores s) (reserve user bytes entries now s)
reserve-Restores user bytes entries now s p v =
    Returns-map {A = IsHandOut user s} {B = λ t. IsBalanced t.1} {C = Restores s}
      (reserve user bytes entries now s)
      (λ t a b j.
        let (amount, ledger, e) = a in
        subst
          (λ (u : ℕ × QuotaService).
            reserved_of j (release u.0 u.1).reserved_by_user ≡ reserved_of j s.reserved_by_user)
          (sym e)
          (release-hand_out j user amount ledger s v
            (subst (λ (u : ℕ × QuotaService). IsBalanced u.1) e b)))
      (reserve-IsHandOut user bytes entries now s) (reserve-IsBalanced s v user bytes entries now p)

-- The new reservation is the user's, and its bytes are added to the user's and to no other's.
abbrev pub HandsOut : ℕ → QuotaService → ℕ × QuotaService → Type 0
HandsOut user s t =
    (bytes : ℕ) × (lookup t.0 t.1.reservations
      ≡ some (record { user_id = user; reserved_bytes = bytes; released = false }))
    × ((j : ℕ)
        → reserved_of j t.1.reserved_by_user
          ≡ reserved_of j s.reserved_by_user + (if user == j then bytes else 0))

hand_out-HandsOut :
    (user bytes : ℕ) (ledger : Dict ℕ) (s : QuotaService)
    → IsBalanced s
    → IsBalanced (hand_out user bytes ledger s).1
    → HandsOut user s (hand_out user bytes ledger s)
unfolding hand_out
hand_out-HandsOut user bytes ledger s v w =
    let n = length s.reservations in
    let r : QuotaReservation = record {
      user_id = user;
      reserved_bytes = bytes;
      released = false;
    } in
    let unused = lookup-IsNumbered 0 n s.reservations v.numbered (omega arith) in
    (
      bytes,
      ground (arith, lookup-insert n n r s.reservations),
      λ j. ground (arith, v.balanced j, w.balanced j, unused, held_by-insert j n r s.reservations),
    )

pub reserve-HandsOut :
    (user bytes entries : ℕ) (now : Reading) (s : QuotaService)
    → 0 < now.unit
    → IsBalanced s
    → Returns (HandsOut user s) (reserve user bytes entries now s)
reserve-HandsOut user bytes entries now s p v =
    Returns-map {A = IsHandOut user s} {B = λ t. IsBalanced t.1} {C = HandsOut user s}
      (reserve user bytes entries now s)
      (λ t a b.
        let (amount, ledger, e) = a in
        subst (HandsOut user s) (sym e) (
          hand_out-HandsOut user amount ledger s v
            (subst (λ (u : ℕ × QuotaService). IsBalanced u.1) e b)))
      (reserve-IsHandOut user bytes entries now s) (reserve-IsBalanced s v user bytes entries now p)
