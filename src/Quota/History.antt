-- ===== src/Quota/History.antt =====
-- Histories of quota.py: the sections of calls under the gates of their users, and the flags that
-- releases set, in any order. A guard only reads; as a section may come at any time, what a guard found
-- earlier puts no bound on the histories.
use ldaca_wordflow_backend.Base.{
  ℕ, ◌+◌, ◌-◌, ◌≤◌, ◌<◌, ◌≡◌, refl, sym, subst, inl, inr, false, ◌&&◌, some, List, [], ◌∷◌, arith,
  ◌==◌, ltb, Result, ok, err, All, lookup-insert, IsUnique, Bool-cases,
}
use ldaca_wordflow_backend.Quota.{
  QuotaService, QuotaError, quota_exceeded, Reading, reserved_of, reservation_bytes, hand_out,
  reserve, reserve_finite, estimated, recheck_section, release_section, mark_released, new,
}
use ldaca_wordflow_backend.Quota.Ledger.{IsBalanced, new-IsBalanced}
use ldaca_wordflow_backend.Quota.Admission.{
  Returns, reserve-IsBalanced, recheck_section-IsBalanced, release_section-IsBalanced,
  mark_released-IsBalanced,
}

-- A section with what the service reads in it.
pub data Call : Type 0 where
  reserving : (user_id requested_bytes requested_entries : ℕ) (now : Reading) → Call
  rechecking : (handle actual_growth : ℕ) (now : Reading) → Call
  estimating : (handle requested_bytes requested_entries : ℕ) (now : Reading) → Call
  measuring : (handle staged replaced : ℕ) (now : Reading) → Call
  giving_back marking : (handle : ℕ) → Call

-- A call that raises leaves the service as it was.
abbrev pub kept : QuotaService → Result QuotaError QuotaService → QuotaService
kept s (ok t) = t
kept s (err e) = s

abbrev pub kept_second : QuotaService → Result QuotaError (ℕ × QuotaService) → QuotaService
kept_second s (ok t) = t.1
kept_second s (err e) = s

abbrev pub step : Call → QuotaService → QuotaService
step (reserving u b n now) s = kept_second s (reserve u b n now s)
step (rechecking h a now) s = kept s (recheck_section h a now s)
step (estimating h b n now) s = kept s (recheck_section h (estimated b n now) now s)
step (measuring h a b now) s = kept s (recheck_section h (a - b) now s)
step (giving_back h) s = release_section h s
step (marking h) s = mark_released h s

abbrev pub run : List Call → QuotaService → QuotaService
run [] s = s
run (c ∷ cs) s = run cs (step c s)

-- An allocation unit is positive.
abbrev pub IsReadable : Call → Type 0
IsReadable (reserving u b n now) = 0 < now.unit
IsReadable (rechecking h a now) = Unit
IsReadable (estimating h b n now) = Unit
IsReadable (measuring h a b now) = Unit
IsReadable (giving_back h) = Unit
IsReadable (marking h) = Unit

kept-IsBalanced :
    (s : QuotaService) (r : Result QuotaError QuotaService)
    → IsBalanced s
    → Returns IsBalanced r
    → IsBalanced (kept s r)
kept-IsBalanced s (ok t) v w = w
kept-IsBalanced s (err e) v w = v

kept_second-IsBalanced :
    (s : QuotaService) (r : Result QuotaError (ℕ × QuotaService))
    → IsBalanced s
    → Returns (λ t. IsBalanced t.1) r
    → IsBalanced (kept_second s r)
kept_second-IsBalanced s (ok t) v w = w
kept_second-IsBalanced s (err e) v w = v

pub step-IsBalanced :
    (c : Call) (s : QuotaService) → IsReadable c → IsBalanced s → IsBalanced (step c s)
step-IsBalanced (reserving u b n now) s p v =
    kept_second-IsBalanced s (reserve u b n now s) v (reserve-IsBalanced s v u b n now p)
step-IsBalanced (rechecking h a now) s p v =
    kept-IsBalanced s (recheck_section h a now s) v (recheck_section-IsBalanced s v h a now)
step-IsBalanced (estimating h b n now) s p v =
    kept-IsBalanced s (recheck_section h (estimated b n now) now s) v
      (recheck_section-IsBalanced s v h (estimated b n now) now)
step-IsBalanced (measuring h a b now) s p v =
    kept-IsBalanced s (recheck_section h (a - b) now s) v
      (recheck_section-IsBalanced s v h (a - b) now)
step-IsBalanced (giving_back h) s p v = release_section-IsBalanced s v h
step-IsBalanced (marking h) s p v = mark_released-IsBalanced s v h

run-IsBalanced_from :
    (cs : List Call) (s : QuotaService) → All IsReadable cs → IsBalanced s → IsBalanced (run cs s)
run-IsBalanced_from [] s p v = v
run-IsBalanced_from (c ∷ cs) s p v =
    run-IsBalanced_from cs (step c s) p.1 (step-IsBalanced c s p.0 v)

-- After any sections of a new service in any order, refused ones included, with positive allocation
-- units: the ledger has one positive entry for each user whose reservations hold bytes, and it is the
-- number of bytes that they hold.
pub run-IsBalanced : (cs : List Call) → All IsReadable cs → IsBalanced (run cs new)
run-IsBalanced cs p = run-IsBalanced_from cs new p new-IsBalanced

-- What a finite admission of some growth means.
abbrev pub Admits :
    ℕ → ℕ → ℕ → Reading → QuotaService → Result QuotaError (ℕ × QuotaService) → Type 0
Admits user requested limit now s (ok t) =
    (now.used + reserved_of user t.1.reserved_by_user ≤ limit)
    × (reserved_of user t.1.reserved_by_user ≡ reserved_of user s.reserved_by_user + requested)
Admits user requested limit now s (err e) =
    (limit < now.used + reserved_of user s.reserved_by_user + requested)
    × (e ≡ quota_exceeded limit now.used (reserved_of user s.reserved_by_user) requested)

reserve_finite-Admits :
    (user requested limit : ℕ) (now : Reading) (s : QuotaService)
    → IsUnique s.reserved_by_user
    → Admits user requested limit now s (reserve_finite user requested limit now s)
unfolding reserve_finite hand_out
reserve_finite-Admits user requested limit now s u =
    elim (Bool-cases (ltb limit (now.used + reserved_of user s.reserved_by_user + requested))) [
      | inl over ↦ rw over (ground arith, refl)
      | inr fits ↦ rw fits (
        ground (
          arith,
          lookup-insert user user (reserved_of user s.reserved_by_user + requested)
              s.reserved_by_user,
        ),
        ground (
          arith,
          lookup-insert user user (reserved_of user s.reserved_by_user + requested)
              s.reserved_by_user,
        ),
      )
    ]

reserve-reserve_finite :
    (user bytes entries limit : ℕ) (now : Reading) (s : QuotaService)
    → now.limit ≡ some limit
    → (bytes == 0 && entries == 0) ≡ false
    → reserve user bytes entries now s
      ≡ reserve_finite user (reservation_bytes bytes entries now.unit) limit now s
unfolding reserve
reserve-reserve_finite user bytes entries limit now s e h = rw (e, reserve, h) refl

-- Under a finite limit, a request for some growth is admitted exactly if the bytes in use, all that
-- is reserved for the user and the request in whole units fit the limit; the ledger then has them
-- added, and a refusal reports the four numbers.
pub reserve-Admits :
    (user bytes entries limit : ℕ) (now : Reading) (s : QuotaService)
    → now.limit ≡ some limit
    → (bytes == 0 && entries == 0) ≡ false
    → IsUnique s.reserved_by_user
    → Admits user
        (reservation_bytes bytes entries now.unit)
        limit
        now
        s
        (reserve user bytes entries now s)
reserve-Admits user bytes entries limit now s e h u =
    subst (Admits user (reservation_bytes bytes entries now.unit) limit now s)
      (sym (reserve-reserve_finite user bytes entries limit now s e h))
      (reserve_finite-Admits user (reservation_bytes bytes entries now.unit) limit now s u)
