-- ===== src/Quota.antt =====
-- src/ldaca_wordflow/services/quota.py: admission of durable growth against a user's quota. The
-- policy, the scan of the disk and the allocation unit are what the service reads at each call: they
-- are the call's `Reading`. Byte counts are naturals, so the guards against negative arguments never
-- fire. A reservation is an object that its owner keeps: the model holds the reservations that were
-- handed out in a dict by handle. A method of a reservation is a guard that reads `_released`, a
-- section under the user's gate, and for `release` the flag that is set afterwards: each is a function
-- of its own, since other calls may run between them, and the method is their composition.
pub mod Rounding
pub mod Ledger
pub mod Admission
pub mod History
pub mod Rollback
mod Tests
use ldaca_wordflow_backend.Base.{
  ℕ, ◌+◌, ◌-◌, ◌*◌, ◌/◌, Bool, true, false, ◌&&◌, ◌||◌, Option, none, some, List, [], ◌∷◌, ◌==◌,
  ltb, if◌then◌else◌, Dict, lookup, insert, erase, length, Result, ok, err,
}

pub record QuotaReservation : Type 0 where
  pub user_id : ℕ
  pub reserved_bytes : ℕ
  pub released : Bool

pub record QuotaService : Type 0 where
  pub reserved_by_user : Dict ℕ
  pub reservations : Dict QuotaReservation

-- The policy (`none` is unlimited), the bytes in use and the allocation unit.
pub record Reading : Type 0 where
  pub limit : Option ℕ
  pub used : ℕ
  pub unit : ℕ

pub data QuotaError : Type 0 where
  quota_exceeded : (limit used reserved requested : ℕ) → QuotaError
  already_released : QuotaError
  unknown_reservation : QuotaError

pub data StorageStatus : Type 0 where
  unlimited : StorageStatus
  quota : (limit used reserved available : ℕ) → StorageStatus

-- `self._reserved_by_user.get(user_id, 0)`
abbrev pub or_zero : Option ℕ → ℕ
or_zero none = 0
or_zero (some n) = n

abbrev pub reserved_of : ℕ → Dict ℕ → ℕ
reserved_of user_id d = or_zero (lookup user_id d)

-- `_set_reserved`
unfoldable pub set_reserved : ℕ → ℕ → Dict ℕ → Dict ℕ
set_reserved user_id value d = if value == 0 then erase user_id d else insert user_id value d

unfoldable pub reservation_bytes : ℕ → ℕ → ℕ → ℕ
reservation_bytes requested_bytes entries unit =
    (if requested_bytes == 0 then 0 else (requested_bytes + unit - 1) / unit * unit)
    + entries * unit

unfoldable pub status : ℕ → Reading → QuotaService → StorageStatus
status user_id now s = elim now.limit [
  | none ↦ unlimited
  | some limit ↦
      quota limit now.used (reserved_of user_id s.reserved_by_user)
        (limit - now.used - reserved_of user_id s.reserved_by_user)
]

-- A reservation is handed out under the next handle.
pub hand_out : ℕ → ℕ → Dict ℕ → QuotaService → ℕ × QuotaService
hand_out user_id bytes reserved_by_user s = (
  length s.reservations,
  record {
    reserved_by_user = reserved_by_user;
    reservations =
        insert (length s.reservations)
          (record { user_id = user_id; reserved_bytes = bytes; released = false }) s.reservations;
  },
)

-- `reserve` under a finite policy, for the growth in whole allocation units.
pub reserve_finite : ℕ → ℕ → ℕ → Reading → QuotaService → Result QuotaError (ℕ × QuotaService)
unfolding hand_out
reserve_finite user_id requested limit now s =
    let reserved = reserved_of user_id s.reserved_by_user in
    if ltb limit (now.used + reserved + requested)
    then err (quota_exceeded limit now.used reserved requested)
    else ok
        (hand_out user_id requested (insert user_id (reserved + requested) s.reserved_by_user) s)

unfoldable pub reserve : ℕ → ℕ → ℕ → Reading → QuotaService → Result QuotaError (ℕ × QuotaService)
unfolding reserve_finite
reserve user_id requested_bytes requested_entries now s = elim now.limit [
  | none ↦ ok (hand_out user_id 0 s.reserved_by_user s)
  | some limit ↦
      if requested_bytes == 0 && requested_entries == 0
      then ok (hand_out user_id 0 s.reserved_by_user s)
      else reserve_finite user_id (reservation_bytes requested_bytes requested_entries now.unit)
          limit now s
]

-- A reservation that now holds `bytes`, with `other` reserved beside it.
pub resize : ℕ → QuotaReservation → ℕ → ℕ → QuotaService → QuotaService
resize handle r other bytes s = record {
  reserved_by_user = set_reserved r.user_id (other + bytes) s.reserved_by_user;
  reservations = insert handle (record r { reserved_bytes = bytes }) s.reservations;
}

-- `_apply_finite_recheck`
pub apply_finite_recheck :
    ℕ → QuotaReservation → ℕ → ℕ → ℕ → ℕ → Reading → QuotaService → Result QuotaError QuotaService
unfolding resize
apply_finite_recheck handle r limit total other actual_growth now s =
    if actual_growth == 0
    then ok (resize handle r other 0 s)
    else if ltb limit (now.used + other + actual_growth)
    then err (quota_exceeded limit now.used total (actual_growth - r.reserved_bytes))
    else ok (resize handle r other actual_growth s)

-- What `_recheck`, `_recheck_estimate` and `_recheck_path` share, for the growth that the call
-- finds under a finite policy.
pub recheck_with :
    ℕ → QuotaReservation → ℕ → Reading → QuotaService → Result QuotaError QuotaService
unfolding apply_finite_recheck
recheck_with handle r actual_growth now s =
    let total = reserved_of r.user_id s.reserved_by_user in
    let other = total - r.reserved_bytes in
    elim now.limit [
      | none ↦ ok (resize handle r other 0 s)
      | some limit ↦ apply_finite_recheck handle r limit total other actual_growth now s
    ]

-- The section of the three rechecks under the gate of the reservation's user.
unfoldable pub recheck_section : ℕ → ℕ → Reading → QuotaService → Result QuotaError QuotaService
unfolding recheck_with
recheck_section handle actual_growth now s = elim (lookup handle s.reservations) [
  | none ↦ err unknown_reservation
  | some r ↦ recheck_with handle r actual_growth now s
]

-- Their guard, before what the section gives.
abbrev pub unless_released :
    ℕ → QuotaService → Result QuotaError QuotaService → Result QuotaError QuotaService
unless_released handle s result = elim (lookup handle s.reservations) [
  | none ↦ err unknown_reservation
  | some r ↦ if r.released then err already_released else result
]

-- The three methods, when no other call runs between the guard and the section.
unfoldable pub recheck : ℕ → ℕ → Reading → QuotaService → Result QuotaError QuotaService
recheck handle actual_growth now s =
    unless_released handle s (recheck_section handle actual_growth now s)

abbrev pub estimated : ℕ → ℕ → Reading → ℕ
estimated requested_bytes requested_entries now =
    reservation_bytes requested_bytes requested_entries now.unit

unfoldable pub recheck_estimate :
    ℕ → ℕ → ℕ → Reading → QuotaService → Result QuotaError QuotaService
recheck_estimate handle requested_bytes requested_entries now s =
    unless_released handle s
      (recheck_section handle (estimated requested_bytes requested_entries now) now s)

-- The staged and the replaced tree as they are measured; nothing replaced measures 0.
unfoldable pub recheck_path : ℕ → ℕ → ℕ → Reading → QuotaService → Result QuotaError QuotaService
recheck_path handle staged replaced now s =
    unless_released handle s (recheck_section handle (staged - replaced) now s)

-- The section of `_release` under the gate.
pub give_back : ℕ → QuotaReservation → QuotaService → QuotaService
give_back handle r s = record {
  reserved_by_user =
      set_reserved r.user_id (reserved_of r.user_id s.reserved_by_user - r.reserved_bytes)
        s.reserved_by_user;
  reservations = insert handle (record r { reserved_bytes = 0 }) s.reservations;
}

unfoldable pub release_section : ℕ → QuotaService → QuotaService
unfolding give_back
release_section handle s = elim (lookup handle s.reservations) [
  | none ↦ s
  | some r ↦ give_back handle r s
]

-- `self._released = True`
unfoldable pub mark_released : ℕ → QuotaService → QuotaService
mark_released handle s = elim (lookup handle s.reservations) [
  | none ↦ s
  | some r ↦ record s { reservations = insert handle (record r { released = true }) s.reservations }
]

-- `release`, when no other call runs between its parts.
unfoldable pub release : ℕ → QuotaService → QuotaService
release handle s = elim (lookup handle s.reservations) [
  | none ↦ s
  | some r ↦
      if r.released
      then s
      else mark_released handle (if r.reserved_bytes == 0 then s else release_section handle s)
]

unfoldable pub new : QuotaService
new = record { reserved_by_user = []; reservations = [] }
