-- ===== src/StorageAdmission/History.antt =====
-- Histories of storage_admission.py: the parts of its methods, and the sections of the quota service
-- below it, in any order. A guard only reads; as a section may come at any time, what a guard found
-- earlier puts no bound on the histories.
use ldaca_wordflow_backend.Base.{
  ℕ, ◌≡◌, subst, ap, inl, inr, Option, none, some, List, [], ◌∷◌, All, split_if, lookup, max,
  Option-cases, Result, ok, err,
}
use ldaca_wordflow_backend.Quota
use ldaca_wordflow_backend.Quota.{QuotaService}
use ldaca_wordflow_backend.Quota.Ledger.{IsBalanced, new-IsBalanced}
use ldaca_wordflow_backend.Quota.Admission.{release-IsBalanced}
use ldaca_wordflow_backend.Quota.History
use ldaca_wordflow_backend.StorageAdmission.{
  StorageAdmissionService, AdmissionError, new, quota_bytes, reserve_physical, acquire_physical,
  acquire_transient, release_quota, release_physical, release,
}
use ldaca_wordflow_backend.StorageAdmission.Ledger.{
  IsBacked, Answers, held_at, new-IsBacked, requota-IsBacked, release_physical-IsBacked,
  acquire_physical-Answers, acquire_transient-Answers,
}

pub record IsAdmitted (s : StorageAdmissionService) : Type 0 where
  pub backed : IsBacked s
  pub balanced : IsBalanced s.quota_service

Answers-IsBacked :
    (free requested : ℕ) (s : StorageAdmissionService)
    (o : Result AdmissionError ℕ × StorageAdmissionService)
    → Answers free requested s o
    → IsBacked o.1
Answers-IsBacked free requested s (ok h, t) a = a.2
Answers-IsBacked free requested s (err e, t) a = a.3

requota-IsAdmitted :
    (q : QuotaService) (s : StorageAdmissionService)
    → IsAdmitted s
    → IsBalanced q
    → IsAdmitted (record s { quota_service = q })
requota-IsAdmitted q s v w = record { backed = requota-IsBacked q s v.backed; balanced = w }

acquire_physical-IsAdmitted :
    (handle requested free : ℕ) (s : StorageAdmissionService)
    → IsAdmitted s
    → IsAdmitted (acquire_physical handle requested free s).1
unfolding acquire_physical
acquire_physical-IsAdmitted handle requested free s v = record {
  backed =
      Answers-IsBacked free (max requested (quota_bytes handle s.quota_service)) s
        (acquire_physical handle requested free s)
        (acquire_physical-Answers handle requested free s v.backed);
  balanced =
      elim (Option-cases
        (reserve_physical free (max requested (quota_bytes handle s.quota_service)) s)) [
          | inl e ↦ rw (e, acquire_physical) v.balanced
          | inr (total, e) ↦ rw (e, acquire_physical) v.balanced
        ];
}

acquire_transient-IsAdmitted :
    (requested free : ℕ) (s : StorageAdmissionService)
    → IsAdmitted s
    → IsAdmitted (acquire_transient requested free s).1
unfolding acquire_transient
acquire_transient-IsAdmitted requested free s v = record {
  backed =
      Answers-IsBacked free requested s (acquire_transient requested free s)
        (acquire_transient-Answers requested free s v.backed);
  balanced = elim (Option-cases (reserve_physical free requested s)) [
    | inl e ↦ rw (e, acquire_transient) v.balanced
    | inr (total, e) ↦ rw (e, acquire_transient) v.balanced
  ];
}

release_physical-IsAdmitted :
    (h bytes : ℕ) (s : StorageAdmissionService)
    → held_at (lookup h s.reservations) ≡ bytes
    → IsAdmitted s
    → IsAdmitted (release_physical h bytes s)
unfolding release_physical
release_physical-IsAdmitted h bytes s e v = record {
  backed =
      subst (λ n. IsBacked (release_physical h n s)) e (release_physical-IsBacked h s v.backed);
  balanced = elim (Option-cases (lookup h s.reservations)) [
    | inl f ↦ rw (f, release_physical) v.balanced
    | inr (r, f) ↦ rw (f, release_physical) v.balanced
  ];
}

release_quota-IsBalanced :
    (quota : Option ℕ) (q : QuotaService) → IsBalanced q → IsBalanced (release_quota quota q)
release_quota-IsBalanced none q v = v
release_quota-IsBalanced (some h) q v = release-IsBalanced q v h

-- A release in which no other call runs.
pub release-IsAdmitted :
    (h : ℕ) (s : StorageAdmissionService) → IsAdmitted s → IsAdmitted (release h s)
unfolding release
release-IsAdmitted h s v = elim (Option-cases (lookup h s.reservations)) [
  | inl e ↦ rw (e, release) v
  | inr (r, e) ↦
      let t : StorageAdmissionService = record s {
        quota_service = release_quota r.quota s.quota_service;
      } in
      rw (e, release)
        (split_if IsAdmitted r.released (λ f. v)
          (λ f. release_physical-IsAdmitted h r.physical_bytes t (ap held_at e) (
            requota-IsAdmitted t.quota_service s v
              (release_quota-IsBalanced r.quota s.quota_service v.balanced))))
]

-- A section of the quota service, the physical half of `acquire`, `acquire_transient`, or the physical
-- half of a release with the bytes that it read when it began.
pub data Section : Type 0 where
  quota_section : (call : Quota.History.Call) → Section
  granting : (handle requested_bytes free : ℕ) → Section
  transient : (requested_bytes free : ℕ) → Section
  giving_back : (reservation bytes : ℕ) → Section

abbrev pub step : Section → StorageAdmissionService → StorageAdmissionService
step (quota_section c) s = record s { quota_service = Quota.History.step c s.quota_service }
step (granting h b free) s = (acquire_physical h b free s).1
step (transient b free) s = (acquire_transient b free s).1
step (giving_back h b) s = release_physical h b s

abbrev pub run : List Section → StorageAdmissionService → StorageAdmissionService
run [] s = s
run (c ∷ cs) s = run cs (step c s)

-- An allocation unit is positive.
abbrev pub IsReadable : Section → Type 0
IsReadable (quota_section c) = Quota.History.IsReadable c
IsReadable _ = Unit

-- A release gives back what its reservation still holds: no other release of it has come first since
-- it read the bytes.
abbrev pub IsCurrent : Section → StorageAdmissionService → Type 0
IsCurrent (giving_back h b) s = held_at (lookup h s.reservations) ≡ b
IsCurrent _ s = Unit

abbrev pub AreCurrent : List Section → StorageAdmissionService → Type 0
AreCurrent [] s = Unit
AreCurrent (c ∷ cs) s = IsCurrent c s × AreCurrent cs (step c s)

step-IsAdmitted :
    (c : Section) (s : StorageAdmissionService)
    → IsReadable c
    → IsCurrent c s
    → IsAdmitted s
    → IsAdmitted (step c s)
step-IsAdmitted (quota_section c) s p q v =
    requota-IsAdmitted (Quota.History.step c s.quota_service) s v
      (Quota.History.step-IsBalanced c s.quota_service p v.balanced)
step-IsAdmitted (granting h b free) s p q v = acquire_physical-IsAdmitted h b free s v
step-IsAdmitted (transient b free) s p q v = acquire_transient-IsAdmitted b free s v
step-IsAdmitted (giving_back h b) s p q v = release_physical-IsAdmitted h b s q v

run-IsAdmitted_from :
    (cs : List Section) (s : StorageAdmissionService)
    → All IsReadable cs
    → AreCurrent cs s
    → IsAdmitted s
    → IsAdmitted (run cs s)
run-IsAdmitted_from [] s p q v = v
run-IsAdmitted_from (c ∷ cs) s p q v =
    run-IsAdmitted_from cs (step c s) p.1 q.1 (step-IsAdmitted c s p.0 q.0 v)

new-IsAdmitted : (n : ℕ) → IsAdmitted (new n)
unfolding new
new-IsAdmitted n = record { backed = new-IsBacked n; balanced = new-IsBalanced }

-- From a new service, after any sections of acquisitions, rechecks and releases in any order, with
-- positive allocation units and no two releases of one reservation under way together: the shared
-- total is what the reservations hold, released ones hold none, and each user's bytes in the quota
-- ledger are what the user's quota reservations hold.
pub run-IsAdmitted :
    (n : ℕ) (cs : List Section)
    → All IsReadable cs
    → AreCurrent cs (new n)
    → IsAdmitted (run cs (new n))
run-IsAdmitted n cs p q = run-IsAdmitted_from cs (new n) p q (new-IsAdmitted n)
