-- ===== src/StorageAdmission/Rollback.antt =====
-- `acquire` of storage_admission.py gives the quota back when the disk refuses.
use ldaca_wordflow_backend.Base.{
  ℕ, ◌+◌, ◌≤◌, ◌<◌, ◌≡◌, refl, subst, inl, inr, arith, false, some, lookup, lookup-insert, max,
  ◌==◌, if◌then◌else◌, Result, ok, err, Result-cases,
}
use ldaca_wordflow_backend.Quota
use ldaca_wordflow_backend.Quota.{QuotaService, QuotaError, Reading, reserved_of}
use ldaca_wordflow_backend.Quota.Admission.{Returns}
use ldaca_wordflow_backend.Quota.Rollback.{Restores, HandsOut, reserve-Restores, reserve-HandsOut}
use ldaca_wordflow_backend.StorageAdmission.{
  StorageReservation, StorageAdmissionService, AdmissionError, quota_bytes, acquire_quota,
  acquire_physical, roll_back, acquire,
}
use ldaca_wordflow_backend.StorageAdmission.Ledger.{reserve_physical-cases}
use ldaca_wordflow_backend.StorageAdmission.History.{IsAdmitted}

-- The user's bytes grow by what the new quota reservation holds, and no other user's do.
abbrev Grows : ℕ → QuotaService → ℕ × QuotaService → Type 0
Grows user s t =
    (j : ℕ)
    → reserved_of j t.1.reserved_by_user
      ≡ reserved_of j s.reserved_by_user + (if user == j then quota_bytes t.0 t.1 else 0)

HandsOut-Grows :
    (user : ℕ) (s : QuotaService) (t : ℕ × QuotaService) → HandsOut user s t → Grows user s t
HandsOut-Grows user s t (bytes, here, grows) j = ground (arith, here, grows j)

Returns-Grows :
    (user : ℕ) (s : QuotaService) (r : Result QuotaError (ℕ × QuotaService))
    → Returns (HandsOut user s) r
    → Returns (Grows user s) r
Returns-Grows user s (ok t) h = HandsOut-Grows user s t h
Returns-Grows user s (err e) h = tt

-- A grant reserves both halves and keeps the disk's minimum; a refusal reserves nothing.
abbrev pub IsAtomic :
    ℕ → ℕ → ℕ → StorageAdmissionService → Result AdmissionError ℕ × StorageAdmissionService → Type 0
IsAtomic user bytes free s (ok h, t) =
    (q : ℕ) × (lookup h t.reservations
      ≡ some (record {
        quota = some q;
        physical_bytes = max bytes (quota_bytes q t.quota_service);
        released = false;
      }))
    × (t.reserved_total ≡ s.reserved_total + max bytes (quota_bytes q t.quota_service))
    × (s.min_free_disk_bytes + t.reserved_total ≤ free)
    × ((j : ℕ)
        → reserved_of j t.quota_service.reserved_by_user
          ≡ reserved_of j s.quota_service.reserved_by_user
            + (if user == j then quota_bytes q t.quota_service else 0))
IsAtomic user bytes free s (err e, t) =
    (t.reserved_total ≡ s.reserved_total)
    × ((j : ℕ)
        → reserved_of j t.quota_service.reserved_by_user
          ≡ reserved_of j s.quota_service.reserved_by_user)

physical-IsAtomic :
    (user h bytes free : ℕ) (q : QuotaService) (s : StorageAdmissionService)
    → Grows user s.quota_service (h, q)
    → Restores s.quota_service (h, q)
    → IsAtomic user bytes free s
        (roll_back h (acquire_physical h bytes free (record s { quota_service = q })))
unfolding acquire_physical
physical-IsAtomic user h bytes free q s grows restores =
    let t : StorageAdmissionService = record s { quota_service = q } in
    let r : StorageReservation = record {
      quota = some h;
      physical_bytes = max bytes (quota_bytes h q);
      released = false;
    } in
    elim (reserve_physical-cases free (max bytes (quota_bytes h q)) t) [
      | inl (e, over) ↦ rw (e, acquire_physical) (refl, restores)
      | inr (e, fits) ↦
          rw (e, acquire_physical)
            (
              h,
              ground (arith, lookup-insert s.handed_out s.handed_out r s.reservations),
              refl,
              omega arith,
              grows,
            )
    ]

-- With both ledgers in order, a positive allocation unit and no other call running between its parts,
-- `acquire` is all or nothing. Granted, it hands out a reservation with the larger of the request and
-- the new quota reservation, adds as much to the shared total, keeps the disk's minimum, and adds the
-- quota reservation to the user's bytes and to no other's; refused by the quota or by the disk, it
-- leaves the shared total and the bytes reserved for every user as they were.
pub acquire-IsAtomic :
    (user bytes entries : ℕ) (now : Reading) (free : ℕ) (s : StorageAdmissionService)
    → 0 < now.unit
    → IsAdmitted s
    → IsAtomic user bytes free s (acquire user bytes entries now free s)
unfolding acquire acquire_quota
acquire-IsAtomic user bytes entries now free s p v =
    elim (Result-cases (Quota.reserve user bytes entries now s.quota_service)) [
      | inl (e, f) ↦ rw (f, acquire, acquire_quota) (refl, λ j. refl)
      | inr (t, f) ↦
          rw (f, acquire, acquire_quota)
            (physical-IsAtomic user t.0 bytes free t.1 s
              (Returns-Grows user s.quota_service (ok t) (
                subst (Returns (HandsOut user s.quota_service)) f
                  (reserve-HandsOut user bytes entries now s.quota_service p v.balanced)))
              (subst (Returns (Restores s.quota_service)) f
                (reserve-Restores user bytes entries now s.quota_service p v.balanced)))
    ]
