-- ===== src/Quota/Rounding.antt =====
-- `_reservation_bytes` of quota.py rounds contents up to allocation units.
use ldaca_wordflow_backend.Base.{ℕ, ◌+◌, ◌-◌, ◌*◌, ◌/◌, ◌≤◌, ◌<◌, ◌≡◌, arith, ◌==◌, if◌then◌else◌}
use ldaca_wordflow_backend.Quota.{reservation_bytes}

-- The estimate covers the bytes and one unit for each entry, with less than one unit to spare, and is
-- a whole number of units.
pub reservation_bytes_bounds :
    (requested entries unit : ℕ)
    → 0 < unit
    → (requested + entries * unit ≤ reservation_bytes requested entries unit)
      × (reservation_bytes requested entries unit < requested + unit + entries * unit)
      × ((count : ℕ) × (reservation_bytes requested entries unit ≡ count * unit))
unfolding reservation_bytes
reservation_bytes_bounds requested entries unit h = (
  grind arith,
  grind arith,
  ((if requested == 0 then 0 else (requested + unit - 1) / unit) + entries, grind arith),
)
