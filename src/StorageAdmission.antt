-- ===== src/StorageAdmission.antt =====
-- src/ldaca_wordflow/services/storage_admission.py: a durable write is admitted by the user's quota
-- first and by the free space of the disk second. The free space is what a call reads under the
-- lock; a `StorageReservation` is a shared object, kept under the number it had when it was handed
-- out. `acquire` reserves the quota, then the physical bytes, and gives the quota back when the disk
-- refuses; `release` gives the quota back, then the physical bytes. These parts are functions of their
-- own, since other calls may run between them, and the methods are their compositions.
pub mod Ledger
pub mod History
pub mod Rollback
mod Tests
use ldaca_wordflow_backend.Base.{
  ℕ, ◌+◌, ◌-◌, max, Bool, true, false, Option, none, some, [], ltb, if◌then◌else◌, Dict, lookup,
  insert, Result, ok, err,
}
use ldaca_wordflow_backend.Quota
use ldaca_wordflow_backend.Quota.{QuotaService, QuotaReservation, QuotaError, Reading}

pub record StorageReservation : Type 0 where
  pub quota : Option ℕ
  pub physical_bytes : ℕ
  pub released : Bool

pub record StorageAdmissionService : Type 0 where
  pub quota_service : QuotaService
  pub min_free_disk_bytes : ℕ
  pub reserved_total : ℕ
  pub reservations : Dict StorageReservation
  pub handed_out : ℕ

pub data AdmissionError : Type 0 where
  quota_refused : QuotaError → AdmissionError
  capacity_exceeded : AdmissionError
  already_released : AdmissionError
  unknown_reservation : AdmissionError

unfoldable pub new : ℕ → StorageAdmissionService
new min_free_disk_bytes = record {
  quota_service = Quota.new;
  min_free_disk_bytes = min_free_disk_bytes;
  reserved_total = 0;
  reservations = [];
  handed_out = 0;
}

abbrev bytes_of : Option QuotaReservation → ℕ
bytes_of none = 0
bytes_of (some r) = r.reserved_bytes

-- `quota.reserved_bytes`
abbrev pub quota_bytes : ℕ → QuotaService → ℕ
quota_bytes handle q = bytes_of (lookup handle q.reservations)

-- `_reserve_physical`: the new total, if the space lasts.
unfoldable pub reserve_physical : ℕ → ℕ → StorageAdmissionService → Option ℕ
reserve_physical free requested_bytes s =
    if ltb free (s.min_free_disk_bytes + s.reserved_total + requested_bytes)
    then none
    else some (s.reserved_total + requested_bytes)

-- A reservation with `physical` bytes becomes the caller's.
abbrev pub grant :
    Option ℕ → ℕ → ℕ → StorageAdmissionService → Result AdmissionError ℕ × StorageAdmissionService
grant quota physical total s = (
  ok s.handed_out,
  record s {
    reserved_total = total;
    reservations =
        insert s.handed_out (record { quota = quota; physical_bytes = physical; released = false })
          s.reservations;
    handed_out = s.handed_out + 1;
  },
)

-- The section of `acquire` after the quota was reserved.
unfoldable pub acquire_physical :
    ℕ → ℕ → ℕ → StorageAdmissionService → Result AdmissionError ℕ × StorageAdmissionService
acquire_physical handle requested_bytes free s =
    let physical = max requested_bytes (quota_bytes handle s.quota_service) in
    elim (reserve_physical free physical s) [
      | none ↦ (err capacity_exceeded, s)
      | some total ↦ grant (some handle) physical total s
    ]

-- What `acquire` does when that section raised: `quota.release`.
abbrev pub roll_back :
    ℕ
    → Result AdmissionError ℕ × StorageAdmissionService
    → Result AdmissionError ℕ × StorageAdmissionService
roll_back handle (ok h, s) = (ok h, s)
roll_back handle (err e, s) =
    (err e, record s { quota_service = Quota.release handle s.quota_service })

-- The section of `acquire` that reserves the quota.
unfoldable pub acquire_quota :
    ℕ
    → ℕ
    → ℕ
    → Reading
    → StorageAdmissionService
    → Result AdmissionError ℕ × StorageAdmissionService
acquire_quota user_id requested_bytes requested_entries now s =
    elim (Quota.reserve user_id requested_bytes requested_entries now s.quota_service) [
      | err e ↦ (err (quota_refused e), s)
      | ok t ↦ (ok t.0, record s { quota_service = t.1 })
    ]

abbrev continue_acquire :
    ℕ
    → ℕ
    → Result AdmissionError ℕ × StorageAdmissionService
    → Result AdmissionError ℕ × StorageAdmissionService
continue_acquire requested_bytes free (err e, s) = (err e, s)
continue_acquire requested_bytes free (ok handle, s) =
    roll_back handle (acquire_physical handle requested_bytes free s)

-- `acquire` when no other call runs between its parts.
unfoldable pub acquire :
    ℕ
    → ℕ
    → ℕ
    → Reading
    → ℕ
    → StorageAdmissionService
    → Result AdmissionError ℕ × StorageAdmissionService
acquire user_id requested_bytes requested_entries now free s =
    continue_acquire requested_bytes free
      (acquire_quota user_id requested_bytes requested_entries now s)

unfoldable pub acquire_transient :
    ℕ → ℕ → StorageAdmissionService → Result AdmissionError ℕ × StorageAdmissionService
acquire_transient requested_bytes free s = elim (reserve_physical free requested_bytes s) [
  | none ↦ (err capacity_exceeded, s)
  | some total ↦ grant none requested_bytes total s
]

abbrev pub release_quota : Option ℕ → QuotaService → QuotaService
release_quota none q = q
release_quota (some handle) q = Quota.release handle q

-- `_release_physical` of the bytes that `release` read before it asked for the lock, and the two
-- fields that it sets as soon as it has left the section.
unfoldable pub release_physical : ℕ → ℕ → StorageAdmissionService → StorageAdmissionService
release_physical h requested_bytes s = elim (lookup h s.reservations) [
  | none ↦ s
  | some r ↦ record s {
    reserved_total = s.reserved_total - requested_bytes;
    reservations = insert h (record r { physical_bytes = 0; released = true }) s.reservations;
  }
]

-- `release` when no other call runs between its parts.
unfoldable pub release : ℕ → StorageAdmissionService → StorageAdmissionService
release h s = elim (lookup h s.reservations) [
  | none ↦ s
  | some r ↦
      if r.released
      then s
      else release_physical h r.physical_bytes
          (record s { quota_service = release_quota r.quota s.quota_service })
]

abbrev rechecked :
    StorageAdmissionService
    → Result QuotaError QuotaService
    → Result AdmissionError StorageAdmissionService
rechecked s (err e) = err (quota_refused e)
rechecked s (ok q) = ok (record s { quota_service = q })

-- The three rechecks of a reservation, for the one that they ask of its quota: between the two guards
-- no other call runs.
unfoldable pub recheck_with :
    ℕ
    → (ℕ → QuotaService → Result QuotaError QuotaService)
    → StorageAdmissionService
    → Result AdmissionError StorageAdmissionService
recheck_with h of_quota s = elim (lookup h s.reservations) [
  | none ↦ err unknown_reservation
  | some r ↦ if r.released then err already_released else elim r.quota [
    | none ↦ ok s
    | some handle ↦ rechecked s (of_quota handle s.quota_service)
  ]
]

unfoldable pub recheck :
    ℕ → ℕ → Reading → StorageAdmissionService → Result AdmissionError StorageAdmissionService
recheck h actual_growth now s = recheck_with h (λ handle. Quota.recheck handle actual_growth now) s

unfoldable pub recheck_estimate :
    ℕ → ℕ → ℕ → Reading → StorageAdmissionService → Result AdmissionError StorageAdmissionService
recheck_estimate h requested_bytes requested_entries now s =
    recheck_with h (λ handle. Quota.recheck_estimate handle requested_bytes requested_entries now) s

unfoldable pub recheck_path :
    ℕ → ℕ → ℕ → Reading → StorageAdmissionService → Result AdmissionError StorageAdmissionService
recheck_path h staged replaced now s =
    recheck_with h (λ handle. Quota.recheck_path handle staged replaced now) s
