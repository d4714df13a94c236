-- ===== src/Sandbox/Admission/Units.antt =====
-- src/sandbox/admission.rs: the units that a run acquires.
use akiro.Prelude.{ℕ, ◌+◌, ◌*◌, ◌≤◌, ◌<◌, arith}
use akiro.Prelude.Word.{u64_max}
use akiro.Sandbox.Admission.{base_unit_bytes, units_for}

-- A run never asks for more units than the budget has, and always for one at least, so that it can
-- be admitted once the others are done; and unless the budget caps it, its units cover its memory
-- and no unit is spare. The budget fits a u32, and the memory is within a unit of what u64 holds.
pub units_for_bounds :
    (total mem : ℕ)
    → 1 ≤ total
    → total < 4294967296
    → mem + base_unit_bytes ≤ u64_max
    → let u = units_for total mem in
      (1 ≤ u)
      × (u ≤ total)
      × (u < total → mem ≤ u * base_unit_bytes)
      × (1 < u → (u * base_unit_bytes < mem + base_unit_bytes))
unfolding units_for
units_for_bounds total mem h k b = omega arith
