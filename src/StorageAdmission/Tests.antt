-- ===== src/StorageAdmission/Tests.antt =====
-- storage_admission.py at concrete inputs.
use ldaca_wordflow_backend.Base.{◌≡◌, refl, arith, some, err, List, [], ◌∷◌, max}
use ldaca_wordflow_backend.Quota
use ldaca_wordflow_backend.Quota.{Reading}
use ldaca_wordflow_backend.StorageAdmission.{
  acquire, already_released, new, quota_bytes, recheck, acquire_physical, acquire_transient,
  reserve_physical, recheck_with, release, release_physical,
}
use ldaca_wordflow_backend.StorageAdmission.Ledger.{Answers, acquire_physical-Answers, new-IsBacked}
use ldaca_wordflow_backend.StorageAdmission.Rollback.{IsAtomic, acquire-IsAtomic}
use ldaca_wordflow_backend.StorageAdmission.History.{
  IsAdmitted, Section, quota_section, granting, transient, giving_back, AreCurrent, run,
  run-IsAdmitted,
}

abbrev small : Reading
small = record { limit = some 100; used = 20; unit = 16 }

-- A transient write comes between the two halves of a release.
abbrev sections : List Section
sections =
    quota_section (Quota.History.reserving 1 20 0 small)
    ∷ quota_section (Quota.History.reserving 2 10 1 small)
    ∷ granting 1 10 90
    ∷ granting 0 20 122
    ∷ quota_section (Quota.History.giving_back 1)
    ∷ quota_section (Quota.History.marking 1)
    ∷ transient 5 200
    ∷ giving_back 0 32
    ∷ quota_section (Quota.History.rechecking 0 3 small)
    ∷ []

sections-AreCurrent : AreCurrent sections (new 50)
unfolding acquire_transient reserve_physical acquire_physical new Quota.reserve Quota.new
    Quota.reservation_bytes Quota.release_section Quota.mark_released
sections-AreCurrent = (tt, (tt, (tt, (tt, (tt, (tt, (tt, (refl, (tt, tt)))))))))

sections-IsAdmitted : IsAdmitted (run sections (new 50))
sections-IsAdmitted =
    run-IsAdmitted 50 sections
      (omega arith, (omega arith, (tt, (tt, (tt, (tt, (tt, (tt, (tt, tt))))))))) sections-AreCurrent

run-IsAdmitted_example : IsAdmitted (run sections (new 50))
run-IsAdmitted_example =
    run-IsAdmitted 50 sections
      (omega arith, (omega arith, (tt, (tt, (tt, (tt, (tt, (tt, (tt, tt))))))))) sections-AreCurrent

-- Two overlapping releases of one reservation give its bytes back twice: what the other reservation
-- holds is then missing from the shared total.
abbrev overlapping : List Section
overlapping = transient 40 200 ∷ transient 30 200 ∷ giving_back 0 40 ∷ giving_back 0 40 ∷ []

given_back_twice : (run overlapping (new 50)).reserved_total ≡ 0
unfolding release_physical acquire_transient reserve_physical new
given_back_twice = refl

recheck_released : recheck 0 3 small (release 0 (run sections (new 50))) ≡ err already_released
unfolding recheck recheck_with release release_physical new acquire_transient reserve_physical
    acquire_physical Quota.reserve Quota.new Quota.reservation_bytes
recheck_released = refl

acquire_physical-Answers_example :
    Answers 90
      (max 30 (quota_bytes 0 (new 50).quota_service))
      (new 50)
      (acquire_physical 0 30 90 (new 50))
acquire_physical-Answers_example = acquire_physical-Answers 0 30 90 (new 50) (new-IsBacked 50)

acquire-IsAtomic_example :
    IsAtomic 3 20 200 (run sections (new 50)) (acquire 3 20 0 small 200 (run sections (new 50)))
acquire-IsAtomic_example =
    acquire-IsAtomic 3 20 0 small 200 (run sections (new 50)) (omega arith) sections-IsAdmitted
