-- ===== src/Quota/Admission.antt =====
-- quota.py admits growth only within the quota, and keeps its ledger after every call.
use ldaca_wordflow_backend.Base.{
  ℕ, ◌+◌, ◌-◌, ◌<◌, ◌≡◌, inl, inr, true, false, ◌&&◌, some, arith, ◌==◌, ltb, lookup, insert,
  lookup-insert, insert-IsUnique, Option-cases, Bool-cases, Result, ok, err, split_if,
  if◌then◌else◌,
}
use ldaca_wordflow_backend.Quota.{
  QuotaReservation, QuotaService, QuotaError, Reading, reserved_of, set_reserved, reservation_bytes,
  hand_out, reserve_finite, reserve, resize, apply_finite_recheck, recheck_with, recheck_section,
  give_back, release_section, mark_released, release,
}
use ldaca_wordflow_backend.Quota.Rounding.{reservation_bytes_bounds}
use ldaca_wordflow_backend.Quota.Ledger.{
  IsBalanced, hand_out-IsBalanced, resize-IsBalanced, reserved_of-set_reserved,
  set_reserved-IsUnique, set_reserved-positive, held_by-lookup,
}

-- What holds of the value if there is one.
abbrev pub Returns : {V : Type 0} → (V → Type 0) → Result QuotaError V → Type 0
Returns P (ok v) = P v
Returns P (err e) = Unit

reservation_bytes_positive :
    (requested entries unit : ℕ)
    → 0 < unit
    → (requested == 0 && entries == 0) ≡ false
    → 0 < reservation_bytes requested entries unit
reservation_bytes_positive requested entries unit p h =
    grind (arith, (reservation_bytes_bounds requested entries unit p).0)

module _ (s : QuotaService) (v : IsBalanced s) where
  unchanged_hand_out : (user : ℕ) → IsBalanced (hand_out user 0 s.reserved_by_user s).1
  unchanged_hand_out user =
      hand_out-IsBalanced user 0 s.reserved_by_user s v v.users_unique
        (λ j. (ground arith, v.positive j))

  reserved_hand_out :
      (user requested : ℕ)
      → 0 < requested
      → IsBalanced
          (hand_out user requested
            (insert user (reserved_of user s.reserved_by_user + requested) s.reserved_by_user)
            s).1
  reserved_hand_out user requested p =
      let ledger =
        insert user (reserved_of user s.reserved_by_user + requested) s.reserved_by_user in
      let found = λ (j : ℕ).
        lookup-insert user j (reserved_of user s.reserved_by_user + requested) s.reserved_by_user in
      hand_out-IsBalanced user requested ledger s v
        (insert-IsUnique user _ s.reserved_by_user v.users_unique)
        (λ j. (ground (arith, found j), λ e. ground (arith, found j, v.positive j)))

  reserve_finite-IsBalanced :
      (user requested limit : ℕ) (now : Reading)
      → 0 < requested
      → Returns (λ t. IsBalanced t.1) (reserve_finite user requested limit now s)
  unfolding reserve_finite
  reserve_finite-IsBalanced user requested limit now p =
      elim (Bool-cases (ltb limit (now.used + reserved_of user s.reserved_by_user + requested))) [
        | inl over ↦ rw over tt
        | inr fits ↦ rw fits (reserved_hand_out user requested p)
      ]

  resized :
      (h bytes : ℕ) (r : QuotaReservation)
      → lookup h s.reservations ≡ some r
      → IsBalanced
          (resize h r (reserved_of r.user_id s.reserved_by_user - r.reserved_bytes) bytes s)
  unfolding resize
  resized h bytes r e =
      let d = s.reserved_by_user in
      let total = reserved_of r.user_id d - r.reserved_bytes + bytes in
      resize-IsBalanced h bytes r.released r (set_reserved r.user_id total d) s v e
        (set_reserved-IsUnique r.user_id total d v.users_unique)
        (λ j. (
          ground (arith, reserved_of-set_reserved r.user_id j total d v.users_unique),
          set_reserved-positive r.user_id j total d v.users_unique (v.positive j),
        ))

  apply_finite_recheck-IsBalanced :
      (h : ℕ) (r : QuotaReservation) (limit total actual : ℕ) (now : Reading)
      → lookup h s.reservations ≡ some r
      → Returns IsBalanced (
          apply_finite_recheck h r limit total
            (reserved_of r.user_id s.reserved_by_user - r.reserved_bytes)
            actual
            now
            s)
  unfolding apply_finite_recheck
  apply_finite_recheck-IsBalanced h r limit total actual now e =
      let other = reserved_of r.user_id s.reserved_by_user - r.reserved_bytes in
      elim (Bool-cases (actual == 0)) [
        | inl nothing ↦ rw nothing (resized h 0 r e)
        | inr some_growth ↦ elim (Bool-cases (ltb limit (now.used + other + actual))) [
          | inl over ↦ rw (some_growth, over) tt
          | inr fits ↦ rw (some_growth, fits) (resized h actual r e)
        ]
      ]

  recheck_with-IsBalanced :
      (h : ℕ) (r : QuotaReservation) (actual : ℕ) (now : Reading)
      → lookup h s.reservations ≡ some r
      → Returns IsBalanced (recheck_with h r actual now s)
  unfolding recheck_with
  recheck_with-IsBalanced h r actual now e = elim (Option-cases now.limit) [
    | inl unlimited ↦ rw (unlimited, recheck_with) (resized h 0 r e)
    | inr (limit, finite) ↦
        rw (finite, recheck_with)
          (apply_finite_recheck-IsBalanced h r limit (reserved_of r.user_id s.reserved_by_user)
            actual now e)
  ]

  pub recheck_section-IsBalanced :
      (h actual : ℕ) (now : Reading) → Returns IsBalanced (recheck_section h actual now s)
  unfolding recheck_section
  recheck_section-IsBalanced h actual now = elim (Option-cases (lookup h s.reservations)) [
    | inl unknown ↦ rw (unknown, recheck_section) tt
    | inr (r, e) ↦ rw (e, recheck_section) (recheck_with-IsBalanced h r actual now e)
  ]

  give_back-IsBalanced :
      (h : ℕ) (r : QuotaReservation)
      → lookup h s.reservations ≡ some r
      → IsBalanced (give_back h r s)
  unfolding give_back
  give_back-IsBalanced h r e =
      let d = s.reserved_by_user in
      let rest = reserved_of r.user_id d - r.reserved_bytes in
      resize-IsBalanced h 0 r.released r (set_reserved r.user_id rest d) s v e
        (set_reserved-IsUnique r.user_id rest d v.users_unique)
        (λ j. (
          ground (arith, reserved_of-set_reserved r.user_id j rest d v.users_unique),
          set_reserved-positive r.user_id j rest d v.users_unique (v.positive j),
        ))

  pub release_section-IsBalanced : (h : ℕ) → IsBalanced (release_section h s)
  unfolding release_section
  release_section-IsBalanced h = elim (Option-cases (lookup h s.reservations)) [
    | inl unknown ↦ rw (unknown, release_section) v
    | inr (r, e) ↦ rw (e, release_section) (give_back-IsBalanced h r e)
  ]

  pub mark_released-IsBalanced : (h : ℕ) → IsBalanced (mark_released h s)
  unfolding mark_released
  mark_released-IsBalanced h = elim (Option-cases (lookup h s.reservations)) [
    | inl unknown ↦ rw (unknown, mark_released) v
    | inr (r, e) ↦
        rw (e, mark_released)
          (resize-IsBalanced h r.reserved_bytes true r s.reserved_by_user s v e v.users_unique (λ j.
            (ground (arith, v.balanced j, held_by-lookup j h r s.reservations e), v.positive j)))
  ]

  pub reserve-IsBalanced :
      (user requested_bytes requested_entries : ℕ) (now : Reading)
      → 0 < now.unit
      → Returns (λ t. IsBalanced t.1) (reserve user requested_bytes requested_entries now s)
  unfolding reserve
  reserve-IsBalanced user requested_bytes requested_entries now p = elim (Option-cases now.limit) [
    | inl unlimited ↦ rw (unlimited, reserve) (unchanged_hand_out user)
    | inr (limit, finite) ↦ elim (Bool-cases (requested_bytes == 0 && requested_entries == 0)) [
      | inl nothing ↦ rw (finite, reserve, nothing) (unchanged_hand_out user)
      | inr growth ↦
          rw (finite, reserve, growth)
            (reserve_finite-IsBalanced user
              (reservation_bytes requested_bytes requested_entries now.unit) limit now
              (reservation_bytes_positive requested_bytes requested_entries now.unit p growth))
    ]
  ]

module _ (s : QuotaService) (v : IsBalanced s) where
  pub release-IsBalanced : (h : ℕ) → IsBalanced (release h s)
  unfolding release
  release-IsBalanced h = elim (Option-cases (lookup h s.reservations)) [
    | inl unknown ↦ rw (unknown, release) v
    | inr (r, e) ↦
        rw (e, release)
          (split_if IsBalanced r.released (λ f. v)
            (λ f.
              mark_released-IsBalanced (if r.reserved_bytes == 0 then s else release_section h s)
                (split_if IsBalanced (r.reserved_bytes == 0) (λ g. v)
                  (λ g. release_section-IsBalanced s v h))
                h))
  ]
