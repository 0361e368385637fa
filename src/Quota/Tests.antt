-- ===== src/Quota/Tests.antt =====
-- quota.py at concrete inputs.
use ldaca_wordflow_backend.Base.{ℕ, ◌≡◌, refl, arith, ◌+◌, ◌*◌, ◌<◌, ◌≤◌, some, List, [], ◌∷◌}
use ldaca_wordflow_backend.Quota.{
  Reading, reserved_of, reservation_bytes, reserve, recheck_section, release_section, mark_released,
  set_reserved, new,
}
use ldaca_wordflow_backend.Quota.Ledger.{IsBalanced, new-IsBalanced}
use ldaca_wordflow_backend.Quota.Rounding.{reservation_bytes_bounds}
use ldaca_wordflow_backend.Quota.Admission.{Returns}
use ldaca_wordflow_backend.Quota.Rollback.{Restores, reserve-Restores}
use ldaca_wordflow_backend.Quota.History.{
  Call, reserving, rechecking, measuring, giving_back, marking, run, run-IsBalanced, Admits,
  reserve-Admits,
}

abbrev small : Reading
small = record { limit = some 100; used = 20; unit = 16 }

abbrev calls : List Call
calls =
    reserving 1 20 1 small
    ∷ reserving 1 40 0 small
    ∷ rechecking 0 10 small
    ∷ reserving 2 1 1 small
    ∷ giving_back 0
    ∷ marking 0
    ∷ measuring 2 40 7 small
    ∷ giving_back 7
    ∷ []

second_refused : reserved_of 1 (run calls new).reserved_by_user ≡ 0
unfolding reserve new release_section mark_released recheck_section reservation_bytes set_reserved
second_refused = refl

run-IsBalanced_example : IsBalanced (run calls new)
run-IsBalanced_example =
    run-IsBalanced calls
      (omega arith, (omega arith, (tt, (omega arith, (tt, (tt, (tt, (tt, tt))))))))

reserve-Admits_example :
    Admits 1 (reservation_bytes 20 1 16) 100 small new (reserve 1 20 1 small new)
reserve-Admits_example = reserve-Admits 1 20 1 100 small new refl refl new-IsBalanced.users_unique

reservation_bytes_bounds_example :
    (20 + 3 * 16 ≤ reservation_bytes 20 3 16)
    × (reservation_bytes 20 3 16 < 20 + 16 + 3 * 16)
    × ((count : ℕ) × (reservation_bytes 20 3 16 ≡ count * 16))
reservation_bytes_bounds_example = reservation_bytes_bounds 20 3 16 (omega arith)

reserve-Restores_example : Returns (Restores new) (reserve 1 20 1 small new)
reserve-Restores_example = reserve-Restores 1 20 1 small new (omega arith) new-IsBalanced
