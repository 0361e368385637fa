-- ===== src/StorageAdmission/Ledger.antt =====
-- The shared headroom of storage_admission.py is what its live reservations hold.
use ldaca_wordflow_backend.Base.{
  ℕ, ◌+◌, ◌≤◌, ◌<◌, ◌≡◌, refl, ◌⊎◌, inl, inr, true, false, Option, none, some, [], ◌∷◌, arith, ltb,
  max, Dict, lookup, insert, lookup-insert, is_some, Option-cases, Bool-cases, Result, ok, err,
}
use ldaca_wordflow_backend.Quota.{QuotaService}
use ldaca_wordflow_backend.StorageAdmission.{
  StorageReservation, StorageAdmissionService, AdmissionError, capacity_exceeded, grant,
  quota_bytes, reserve_physical, acquire_physical, acquire_transient, release_physical, new,
}

-- What the reservations hold together.
abbrev pub held : Dict StorageReservation → ℕ
held [] = 0
held (e ∷ d) = e.1.physical_bytes + held d

abbrev pub held_at : Option StorageReservation → ℕ
held_at none = 0
held_at (some r) = r.physical_bytes

held-insert :
    (h : ℕ) (r : StorageReservation) (d : Dict StorageReservation)
    → held (insert h r d) + held_at (lookup h d) ≡ held d + r.physical_bytes
held-insert h r [] = omega arith
held-insert h r (e ∷ d) = ground (arith, held-insert h r d)

pub record IsBacked (s : StorageAdmissionService) : Type 0 where
  pub total : s.reserved_total ≡ held s.reservations
  pub allocated : (h : ℕ) → is_some (lookup h s.reservations) ≡ true → h < s.handed_out
  pub settled :
      (h : ℕ) (r : StorageReservation)
      → lookup h s.reservations ≡ some r
      → r.released ≡ true
      → r.physical_bytes ≡ 0

pub new-IsBacked : (n : ℕ) → IsBacked (new n)
unfolding new
new-IsBacked n = record {
  total = refl;
  allocated = λ h e. ground arith;
  settled = λ h r e f. ground arith;
}

pub grant-IsBacked :
    (quota : Option ℕ) (physical : ℕ) (s : StorageAdmissionService)
    → IsBacked s
    → IsBacked (grant quota physical (s.reserved_total + physical) s).1
grant-IsBacked quota physical s v =
    let r : StorageReservation = record {
      quota = quota;
      physical_bytes = physical;
      released = false;
    } in
    let unused : lookup s.handed_out s.reservations ≡ none =
      ground (arith, v.allocated s.handed_out) in
    record {
      total = ground (arith, v.total, held-insert s.handed_out r s.reservations);
      allocated =
          λ h e. ground (arith, v.allocated h, lookup-insert s.handed_out h r s.reservations);
      settled =
          λ h q e f. ground (arith, v.settled h q, lookup-insert s.handed_out h r s.reservations);
    }

pub requota-IsBacked :
    (q : QuotaService) (s : StorageAdmissionService)
    → IsBacked s
    → IsBacked (record s { quota_service = q })
requota-IsBacked q s v = record { total = v.total; allocated = v.allocated; settled = v.settled }

-- What is given back is what the reservation still holds.
pub release_physical-IsBacked :
    (h : ℕ) (s : StorageAdmissionService)
    → IsBacked s
    → IsBacked (release_physical h (held_at (lookup h s.reservations)) s)
unfolding release_physical
release_physical-IsBacked h s v = elim (Option-cases (lookup h s.reservations)) [
  | inl unknown ↦ rw (unknown, release_physical) v
  | inr (r, e) ↦
      let gone : StorageReservation = record r { physical_bytes = 0; released = true } in
      rw (e, release_physical)
        (record {
          total = ground (arith, v.total, held-insert h gone s.reservations);
          allocated = λ j f. ground (arith, v.allocated j, lookup-insert h j gone s.reservations);
          settled = λ j q f g. ground (arith, v.settled j q, lookup-insert h j gone s.reservations);
        })
]

-- What a request for `requested` bytes of a disk with `free` bytes gives.
abbrev pub Answers :
    ℕ → ℕ → StorageAdmissionService → Result AdmissionError ℕ × StorageAdmissionService → Type 0
Answers free requested s (ok h, t) =
    (s.min_free_disk_bytes + t.reserved_total ≤ free)
    × (t.reserved_total ≡ s.reserved_total + requested)
    × IsBacked t
Answers free requested s (err e, t) =
    (e ≡ capacity_exceeded)
    × (free < s.min_free_disk_bytes + s.reserved_total + requested)
    × (t.reserved_total ≡ s.reserved_total)
    × IsBacked t

pub reserve_physical-cases :
    (free requested : ℕ) (s : StorageAdmissionService)
    → ((reserve_physical free requested s ≡ none)
        × (free < s.min_free_disk_bytes + s.reserved_total + requested))
      ⊎ ((reserve_physical free requested s ≡ some (s.reserved_total + requested))
          × (s.min_free_disk_bytes + s.reserved_total + requested ≤ free))
unfolding reserve_physical
reserve_physical-cases free requested s =
    elim (Bool-cases (ltb free (s.min_free_disk_bytes + s.reserved_total + requested))) [
      | inl over ↦ inl (ground arith, ground arith)
      | inr fits ↦ inr (ground arith, ground arith)
    ]

-- The second section of an acquisition, in a service whose total is backed by its reservations,
-- grants the larger of the request and its quota exactly if the disk keeps its minimum after all that
-- is reserved; a refusal leaves the total, and both leave it backed.
pub acquire_physical-Answers :
    (handle requested free : ℕ) (s : StorageAdmissionService)
    → IsBacked s
    → Answers free
        (max requested (quota_bytes handle s.quota_service))
        s
        (acquire_physical handle requested free s)
unfolding acquire_physical
acquire_physical-Answers handle requested free s v =
    let physical = max requested (quota_bytes handle s.quota_service) in
    elim (reserve_physical-cases free physical s) [
      | inl (e, over) ↦ rw (e, acquire_physical) (refl, over, refl, v)
      | inr (e, fits) ↦
          rw (e, acquire_physical) (omega arith, refl, grant-IsBacked (some handle) physical s v)
    ]

pub acquire_transient-Answers :
    (requested free : ℕ) (s : StorageAdmissionService)
    → IsBacked s
    → Answers free requested s (acquire_transient requested free s)
unfolding acquire_transient
acquire_transient-Answers requested free s v = elim (reserve_physical-cases free requested s) [
  | inl (e, over) ↦ rw (e, acquire_transient) (refl, over, refl, v)
  | inr (e, fits) ↦ rw (e, acquire_transient) (omega arith, refl, grant-IsBacked none requested s v)
]
